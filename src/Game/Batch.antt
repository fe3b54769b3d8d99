-- ===== src/Game/Batch.antt =====
-- The loop of `case "AI_SOLVE_SUCCESS"` (frontend/src/lib/gameReducer.ts): its rounds as equations,
-- and the invariant rule that the proofs about the loop apply.
use connections.Base.{
  String, ◌≡◌, sym, subst, inl, inr, true, false, List, [], ◌∷◌, arith, Bool-cases,
}
use connections.Game.{Category, GuessResult}
use connections.Game.Guess.{correct, wrong, Outcome-cases, evaluate_guess}
use connections.Game.Reducer.{is_playing, Batch, accept, reject, submit_groups}

module _ (cats : List Category) (items : List String) (groups : List (List String))
    (b : Batch) where
  pub submit_groups_over : is_playing b.status ≡ false → submit_groups cats (items ∷ groups) b ≡ b
  unfolding submit_groups
  submit_groups_over h = ground arith

  pub submit_groups_correct :
      (c : Category)
      → is_playing b.status ≡ true
      → evaluate_guess cats items ≡ correct c
      → submit_groups cats (items ∷ groups) b ≡ submit_groups cats groups (accept cats items c b)
  unfolding submit_groups
  submit_groups_correct c h e = ground arith

  pub submit_groups_wrong :
      (r : GuessResult)
      → is_playing b.status ≡ true
      → evaluate_guess cats items ≡ wrong r
      → submit_groups cats (items ∷ groups) b ≡ reject cats items r b
  unfolding submit_groups
  submit_groups_wrong r h e = ground arith

-- What every correct round and the wrong round keep holds after the batch.
module _ {ℓ} (cats : List Category) (P : Batch → Type ℓ)
    (on_correct : (items : List String) (c : Category) (b : Batch)
      → is_playing b.status ≡ true
      → evaluate_guess cats items ≡ correct c
      → P b
      → P (accept cats items c b))
    (on_wrong : (items : List String) (r : GuessResult) (b : Batch)
      → is_playing b.status ≡ true
      → evaluate_guess cats items ≡ wrong r
      → P b
      → P (reject cats items r b)) where
  pub submit_groups_inv :
      (groups : List (List String)) (b : Batch) → P b → P (submit_groups cats groups b)
  unfolding submit_groups
  submit_groups_inv [] b h = h
  submit_groups_inv (items ∷ groups) b h = elim (Bool-cases (is_playing b.status)) [
    | inr over ↦ subst P (sym (submit_groups_over cats items groups b over)) h
    | inl on ↦ elim (Outcome-cases (evaluate_guess cats items)) [
      | inl (c, e) ↦
          subst P (sym (submit_groups_correct cats items groups b c on e))
            (submit_groups_inv groups (accept cats items c b) (on_correct items c b on e h))
      | inr (r, e) ↦
          subst P (sym (submit_groups_wrong cats items groups b r on e)) (on_wrong items r b on e h)
    ]
  ]
