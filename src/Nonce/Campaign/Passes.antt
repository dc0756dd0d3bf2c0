-- ===== src/Nonce/Campaign/Passes.antt =====
-- Runs that return: what holds of the value and of the world after them, from one statement to the next.
use perfectvaluecubesymmetri.Base.{◌≡◌, refl, sym, ap, ◌∙◌, subst, Bool, true, false, Exception}
use perfectvaluecubesymmetri.Nonce.Store.Effects.{
  Outcome, returned, Stateful, ◌>>=◌, ◌>>◌, check, pure,
}

-- The run returns, and `post` holds of its value and of the state after it.
pub record Returns {S A : Type 0} (post : A → S → Type 0) (r : Outcome A × S) : Type 0 where
  pub result : A
  pub after : S
  pub ends : r ≡ (returned result, after)
  pub holds : post result after

module _ {S : Type 0} where
  pub pure-Returns :
      {A : Type 0} {post : A → S → Type 0} (a : A) (world : S)
      → post a world
      → Returns post (pure a world)
  pure-Returns a world h = record { result = a; after = world; ends = refl; holds = h }

  pub bind-Returns :
      {A B : Type 0} {post : A → S → Type 0} {last : B → S → Type 0} (m : Stateful S A)
      (k : A → Stateful S B) (world : S)
      → Returns post (m world)
      → ((a : A) (world' : S) → post a world' → Returns last (k a world'))
      → Returns last ((m >>= k) world)
  bind-Returns {A} {last} m k world h next =
      subst (λ (r : Outcome A × S). Returns last (((λ (s : S). r) >>= k) world)) (sym h.ends)
        (next h.result h.after h.holds)

  pub check-Returns :
      {B : Type 0} {last : B → S → Type 0} (b : Bool) (e : Exception) (k : Stateful S B) (world : S)
      → b ≡ true
      → Returns last (k world)
      → Returns last ((check b e >> k) world)
  check-Returns true e k world h next = next
  check-Returns false e k world h next = cc h

  pub Returns-weaken :
      {A : Type 0} {post last : A → S → Type 0} {r : Outcome A × S}
      → Returns post r
      → ((a : A) (world : S) → post a world → last a world)
      → Returns last r
  Returns-weaken h w = record {
    result = h.result;
    after = h.after;
    ends = h.ends;
    holds = w h.result h.after h.holds;
  }

  -- The value of a run that returns it.
  pub returned_value :
      {A : Type 0} {a : A} {r : Outcome A × S}
      → Returns (λ (x : A) (world : S). x ≡ a) r
      → r.0 ≡ returned a
  returned_value h = ap (λ t. t.0) h.ends ∙ ap returned h.holds
