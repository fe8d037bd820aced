-- ===== src/Comandos/Logic.antt =====
-- Conditions after a command. A command that does not return meets every condition after it.
use tp_sistemas_operativos.Base.{◌≡◌, ◌∙◌}
use tp_sistemas_operativos.Comandos.Eval.{bind-ok, then-ok}
use tp_sistemas_operativos.Comandos.{Run, ok, fault, blocks, agotado, Cmd, and_then, ◌>>=◌, ◌>>◌}

module _ {S : Type 0} where
  abbrev pub After : {A : Type 0} → (A → S → Type 0) → Run S A → Type 0
  After Q (ok a s) = Q a s
  After Q fault = Unit
  After Q blocks = Unit
  After Q agotado = Unit

module _ {S A B : Type 0} (R : A → S → Type 0) (Q : B → S → Type 0) where
  After-and_then :
      (r : Run S A) (k : A → Cmd S B)
      → After R r
      → ((a : A) (s : S) → R a s → After Q (k a s))
      → After Q (and_then r k)
  After-and_then (ok a s) k h hk = hk a s h
  After-and_then fault k h hk = tt
  After-and_then blocks k h hk = tt
  After-and_then agotado k h hk = tt

  pub After-bind :
      (c : Cmd S A) (k : A → Cmd S B) (s : S)
      → After R (c s)
      → ((a : A) (t : S) → R a t → After Q (k a t))
      → After Q ((c >>= k) s)
  unfolding ◌>>=◌
  After-bind c k s h hk = After-and_then (c s) k h hk

  pub After-then :
      (c : Cmd S A) (d : Cmd S B) (s : S)
      → After R (c s)
      → ((a : A) (t : S) → R a t → After Q (d t))
      → After Q ((c >> d) s)
  unfolding ◌>>◌
  After-then c d s h hd = After-and_then (c s) (λ _. d) h hd

module _ {S A : Type 0} where
  -- A run that returns, with a condition on what it returns.
  abbrev pub Devuelve : (A → S → Type 0) → Run S A → Type 0
  Devuelve Q r = (a : A) × (s : S) × (r ≡ ok a s) × Q a s

  pub Devuelve-igual : (Q : A → S → Type 0) (p q : Run S A) → p ≡ q → Devuelve Q q → Devuelve Q p
  Devuelve-igual Q p q e (a, s, f, h) = (a, s, e ∙ f, h)

module _ {S A B : Type 0} (R : A → S → Type 0) (Q : B → S → Type 0) where
  pub Devuelve-bind :
      (c : Cmd S A) (k : A → Cmd S B) (s : S)
      → Devuelve R (c s)
      → ((a : A) (t : S) → R a t → Devuelve Q (k a t))
      → Devuelve Q ((c >>= k) s)
  Devuelve-bind c k s (a, t, e, h) hk =
      let (b, u, f, g) = hk a t h in (b, u, bind-ok c k s t a e ∙ f, g)

  pub Devuelve-then :
      (c : Cmd S A) (d : Cmd S B) (s : S)
      → Devuelve R (c s)
      → ((a : A) (t : S) → R a t → Devuelve Q (d t))
      → Devuelve Q ((c >> d) s)
  Devuelve-then c d s (a, t, e, h) hd =
      let (b, u, f, g) = hd a t h in (b, u, then-ok c d s t a e ∙ f, g)
