-- ===== src/Comandos.antt =====
-- Commands over a state: state passing with a fault (a dereference of NULL or of a freed object), a
-- call that never returns because of a mutex, and a loop that has used up its rounds.
pub mod Eval
pub mod Logic
use tp_sistemas_operativos.Base.{Option, none, some}

pub data Run (S A : Type 0) : Type 0 where
  ok : A → S → Run S A
  fault : Run S A
  blocks : Run S A
  agotado : Run S A

abbrev pub Cmd : Type 0 → Type 0 → Type 0
Cmd S A = S → Run S A

module _ {S A : Type 0} where
  unfoldable pub pure : A → Cmd S A
  pure a s = ok a s

  unfoldable pub gets : (S → A) → Cmd S A
  gets f s = ok (f s) s

  unfoldable pub or_fault : Option A → Cmd S A
  or_fault none s = fault
  or_fault (some a) s = ok a s

  unfoldable pub agotar : Cmd S A
  agotar s = agotado

module _ {S : Type 0} where
  unfoldable pub modify : (S → S) → Cmd S (Unit {0})
  modify f s = ok tt (f s)

module _ {S A B : Type 0} where
  abbrev pub and_then : Run S A → (A → Cmd S B) → Run S B
  and_then (ok a s) k = k a s
  and_then fault k = fault
  and_then blocks k = blocks
  and_then agotado k = agotado

  -- To open this opens `pure`, `gets`, `modify` and `or_fault` too.
  infixl 5 ◌>>=◌ ◌>>◌
  unfoldable pub ◌>>=◌ : Cmd S A → (A → Cmd S B) → Cmd S B
  unfolding pure gets modify or_fault
  ◌>>=◌ c k s = and_then (c s) k

  unfoldable pub ◌>>◌ : Cmd S A → Cmd S B → Cmd S B
  unfolding ◌>>=◌
  ◌>>◌ c d s = and_then (c s) (λ _. d)
