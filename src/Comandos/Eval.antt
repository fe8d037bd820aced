-- ===== src/Comandos/Eval.antt =====
-- How a run of commands goes on after its first command.
use tp_sistemas_operativos.Base.{◌≡◌, refl, ap, Bool, true, false, if◌then◌else◌}
use tp_sistemas_operativos.Comandos.{ok, blocks, Cmd, gets, modify, and_then, ◌>>=◌, ◌>>◌}

module _ {S A B : Type 0} where
  pub bind-ok :
      (c : Cmd S A) (k : A → Cmd S B) (s t : S) (a : A) → c s ≡ ok a t → (c >>= k) s ≡ k a t
  unfolding ◌>>=◌
  bind-ok c k s t a h = ap (λ r. and_then r k) h

  pub then-ok : (c : Cmd S A) (d : Cmd S B) (s t : S) (a : A) → c s ≡ ok a t → (c >> d) s ≡ d t
  unfolding ◌>>◌
  then-ok c d s t a h = ap (λ r. and_then r (λ _. d)) h

  pub bind-blocks : (c : Cmd S A) (k : A → Cmd S B) (s : S) → c s ≡ blocks → (c >>= k) s ≡ blocks
  unfolding ◌>>=◌
  bind-blocks c k s h = ap (λ r. and_then r k) h

  pub then-blocks : (c : Cmd S A) (d : Cmd S B) (s : S) → c s ≡ blocks → (c >> d) s ≡ blocks
  unfolding ◌>>◌
  then-blocks c d s h = ap (λ r. and_then r (λ _. d)) h

module _ {S A : Type 0} where
  pub if-false : (b : Bool) (c d : Cmd S A) (s : S) → b ≡ false → (if b then c else d) s ≡ d s
  if-false b c d s h = ap (λ x. (if x then c else d) s) h

  pub if-true : (b : Bool) (c d : Cmd S A) (s : S) → b ≡ true → (if b then c else d) s ≡ c s
  if-true b c d s h = ap (λ x. (if x then c else d) s) h

module _ {S A B : Type 0} where
  pub bind-gets : (f : S → A) (k : A → Cmd S B) (s : S) → (gets f >>= k) s ≡ k (f s) s
  unfolding ◌>>=◌ gets
  bind-gets f k s = refl

module _ {S B : Type 0} where
  pub then-modify : (f : S → S) (d : Cmd S B) (s : S) → (modify f >> d) s ≡ d (f s)
  unfolding ◌>>◌ modify
  then-modify f d s = refl
