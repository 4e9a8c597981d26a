-- ===== src/Round/Monitor/Tables.antt =====
-- `WitnessFame` and the size of its tables: it goes through all `MaxNodeCount` slots of two rounds,
-- and the tables of a round have a row and a column for each of `broadness` peers.
use go_hashgrid.Common.{
  ℕ, zero, suc, ◌+◌, ◌≤◌, ◌<◌, ◌≡◌, refl, sym, ap, subst, ◌∙◌, ◌≢◌, inl, inr, some, List, [], ◌∷◌,
  arith, ltb, ltb→lt, Bool-cases, List-cases, length, get_elem?, set, replicate, length-set,
  get_elem?-set_self, length-replicate, done, >>=-eq-done, done-injective,
}
use go_hashgrid.Jigsaw.State.{VertexRef, Round, JpGraph, max_node_count}
use go_hashgrid.Round.Rounds.{new_round}
use go_hashgrid.Round.Monitor.{
  look, color_cluster_vote, put_at, put_cell, vote_row, vote_rows, witness_fame,
}

-- A cell is written inside its row, which keeps its length.
put_cell-fits {ℓ} :
    {A : Type ℓ} (i j : ℕ) (a : A) (xss yss : List (List A)) (row : List A)
    → get_elem? xss i ≡ some row
    → put_cell i j a xss ≡ done yss
    → (j < length row) × (get_elem? yss i ≡ some (set row j a))
unfolding put_cell put_at
put_cell-fits {A = A} i j a xss yss row at h =
    let (row', h1, h2) =
      >>=-eq-done (put_at j a row) (λ r. put_at i r xss) (rw (at, put_cell) at h) in
    elim (Bool-cases (ltb j (length row))) [
      | inr out ↦ absurd (cc (rw (out, put_at) at h1))
      | inl inside ↦
          let same : set row j a ≡ row' = done-injective _ row' (rw (inside, put_at) at h1) in
          elim (Bool-cases (ltb i (length xss))) [
            | inr out ↦ absurd (cc (rw (out, put_at) at h2))
            | inl there ↦
                let written : set xss i row' ≡ yss =
                  done-injective _ yss (rw (there, put_at) at h2) in
                (
                  ltb→lt j (length row) inside,
                  subst (λ z. get_elem? z i ≡ some (set row j a)) written
                      (get_elem?-set_self xss i row' (ltb→lt i (length xss) there)
                        ∙ ap some (sym same)),
                )
          ]
    ]

-- Where the inner loop returns, its row has a cell for each slot.
vote_row-fits :
    (fuel idx i j : ℕ) (n : VertexRef) (ws : List VertexRef) (rd rd' : Round) (jp jp' : JpGraph)
    (row : List ℕ)
    → get_elem? rd.votes i ≡ some row
    → j ≤ length row
    → vote_row fuel idx i j n ws rd jp ≡ done (rd', jp')
    → j + length ws ≤ length row
unfolding vote_row
vote_row-fits fuel idx i j n [] rd rd' jp jp' row at le h = omega arith
vote_row-fits fuel idx i j n (w ∷ ws) rd rd' jp jp' row at le h =
    let ((v, k, jp1), looked, h1) = >>=-eq-done (look fuel idx color_cluster_vote jp n w) _ h in
    let (votes, voted, h2) = >>=-eq-done (put_cell i j v rd.votes) _ h1 in
    let (strongsee, noted, h3) = >>=-eq-done (put_cell i j k rd.strongsee) _ h2 in
    let (inside, there) = put_cell-fits i j v rd.votes votes row at voted in
    let kept : length (set row j v) ≡ length row = length-set row j v in
    let rest =
      vote_row-fits fuel idx i (suc j) n ws (record rd { votes = votes; strongsee = strongsee }) rd'
        jp1 jp' (set row j v) there (omega arith) h3 in
    omega arith

-- Where the first row is shorter than the list of slots, the outer loop does not return.
vote_rows-fits :
    (fuel idx : ℕ) (n : VertexRef) (ns ws : List VertexRef) (rd rd' : Round) (jp jp' : JpGraph)
    (row : List ℕ)
    → get_elem? rd.votes 0 ≡ some row
    → length row < length ws
    → vote_rows fuel idx 0 (n ∷ ns) ws rd jp ≢ done (rd', jp')
unfolding vote_rows
vote_rows-fits fuel idx n ns ws rd rd' jp jp' row at short h =
    let ((rd1, jp1), first, h1) = >>=-eq-done (vote_row fuel idx 0 0 n ws rd jp) _ h in
    omega (arith, vote_row-fits fuel idx 0 0 n ws rd rd1 jp jp1 row at (omega arith) first)

get_elem?-new_votes :
    (l idx : ℕ) → 0 < l → get_elem? (new_round l idx).votes 0 ≡ some (replicate l 0)
unfolding new_round
get_elem?-new_votes zero idx h = absurd (omega arith)
get_elem?-new_votes (suc l) idx h = refl

-- With two rounds in the queue, `WitnessFame` never returns for a number of peers between 1 and 127:
-- the lists of slots of both rounds are of `MaxNodeCount` slots, and the table of votes of the front
-- round is that of `NewRound`.
pub witness_fame-new_round :
    (fuel l idx : ℕ) (jp jp' : JpGraph) (rd rd1 : Round) (older : List Round)
    → jp.queue ≡ rd ∷ rd1 ∷ older
    → length rd.witnesses ≡ max_node_count
    → length rd1.witnesses ≡ max_node_count
    → rd.votes ≡ (new_round l idx).votes
    → 0 < l
    → l < max_node_count
    → witness_fame fuel jp ≢ done jp'
unfolding witness_fame
witness_fame-new_round fuel l idx jp jp' rd rd1 older queue slots slots1 votes some_peer few h =
    let h0 = rw (queue, witness_fame) at h in
    let ((rd2, jp2), voted, h1) =
      >>=-eq-done (vote_rows fuel rd1.index 0 rd.witnesses rd1.witnesses rd jp) _ h0 in
    let row : List ℕ = replicate l 0 in
    let size : length row ≡ l = length-replicate l 0 in
    elim (List-cases rd.witnesses) [
      | inl empty ↦ absurd (omega (arith, ap length empty, slots))
      | inr (n, ns, is) ↦
          vote_rows-fits fuel rd1.index n ns rd1.witnesses rd rd2 jp jp2 row
            (ap (λ t. get_elem? t 0) votes ∙ get_elem?-new_votes l idx some_peer)
            (rw (size, slots1) few)
            (subst (λ ws. vote_rows fuel rd1.index 0 ws rd1.witnesses rd jp ≡ done (rd2, jp2)) is
              voted)
    ]
