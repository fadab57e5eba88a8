-- ===== src/Pipeline/Action.antt =====
-- Code that changes the run's summary and may raise. What was counted before a raise stays counted.
use claude_azure_o11y.Prelude.{Result, ok, err, List, [], ◌∷◌, ◌++◌}
use claude_azure_o11y.Models.Summary.{RunSummary}

abbrev pub Action : Type 0 → Type 0 → Type 0
Action F A = RunSummary F → Result A × RunSummary F

module _ {F A : Type 0} where
  abbrev pub pure : A → Action F A
  pure a s = (ok a, s)

  abbrev pub lift : Result A → Action F A
  lift r s = (r, s)

module _ {F A B : Type 0} where
  abbrev pub continue : Result A → (A → Action F B) → Action F B
  continue (ok a) f s = f a s
  continue (err x) f s = (err x, s)

  infixl 5 ◌>>=◌
  abbrev pub ◌>>=◌ : Action F A → (A → Action F B) → Action F B
  ◌>>=◌ m f s = let (r, s') = m s in continue r f s'

infixl 5 ◌>>◌
abbrev pub ◌>>◌ : {F B : Type 0} → Action F (Unit {0}) → Action F B → Action F B
m >> k = ◌>>=◌ m (λ _. k)

abbrev pub modify : {F : Type 0} → (RunSummary F → RunSummary F) → Action F (Unit {0})
modify f s = (ok tt, f s)

-- The body of a loop that appends to a list.
module _ {F A B : Type 0} where
  unfoldable pub collect : (A → Action F (List B)) → List A → Action F (List B)
  collect f [] = pure []
  collect f (x ∷ xs) = f x >>= λ ys. collect f xs >>= λ zs. pure (ys ++ zs)
