-- ===== src/Suse/Logic.antt =====
-- Conditions before and after a command. A command that faults or blocks meets every condition
-- after it, so these are statements about the runs that return.
use tp_sistemas_operativos.Base.{◌≡◌, refl, Bool, true, false, Option, none, some, if◌then◌else◌}
use tp_sistemas_operativos.Commons.{Machine}
use tp_sistemas_operativos.Suse.State.{Suse}
use tp_sistemas_operativos.Suse.Run.{
  Run, ok, fault, blocks, Cmd, pure, gets, or_fault, and_then, ◌>>=◌, ◌>>◌, modify,
}

module _ ⦃m : Machine⦄ where
  abbrev pub After : {A : Type 0} → (A → Suse → Type 0) → Run A → Type 0
  After Q (ok a s) = Q a s
  After Q fault = Unit
  After Q blocks = Unit

  pub record Ensures {A : Type 0} (P : Suse → Type 0) (c : Cmd A) (Q : Suse → Type 0) : Type 0 where
    pub at : (s : Suse) → P s → After (λ _. Q) (c s)

  abbrev pub Keeps : {A : Type 0} → (Suse → Type 0) → Cmd A → Type 0
  Keeps I c = Ensures I c I

module _ ⦃m : Machine⦄ {A : Type 0} {I : Suse → Type 0} where
  pub Keeps-pure : (a : A) → Keeps I (pure a)
  unfolding pure
  Keeps-pure a = record { at = λ s h. h }

  pub Keeps-gets : (f : Suse → A) → Keeps I (gets f)
  unfolding gets
  Keeps-gets f = record { at = λ s h. h }

  pub Keeps-or_fault : (o : Option A) → Keeps I (or_fault o)
  unfolding or_fault
  Keeps-or_fault none = record { at = λ s h. tt }
  Keeps-or_fault (some a) = record { at = λ s h. h }

module _ ⦃m : Machine⦄ {A : Type 0} {P Q : Suse → Type 0} where
  pub Ensures-if :
      (b : Bool) (c d : Cmd A)
      → (b ≡ true → Ensures P c Q)
      → (b ≡ false → Ensures P d Q)
      → Ensures P (if b then c else d) Q
  Ensures-if true c d hc hd = hc refl
  Ensures-if false c d hc hd = hd refl

module _ ⦃m : Machine⦄ {P Q : Suse → Type 0} where
  pub Ensures-modify : (f : Suse → Suse) → ((s : Suse) → P s → Q (f s)) → Ensures P (modify f) Q
  unfolding modify
  Ensures-modify f h = record { at = h }

module _ ⦃m : Machine⦄ {A : Type 0} {Q R : Suse → Type 0} where
  After-map : (r : Run A) → ((s : Suse) → Q s → R s) → After (λ _. Q) r → After (λ _. R) r
  After-map (ok a s) f h = f s h
  After-map fault f h = tt
  After-map blocks f h = tt

module _ ⦃m : Machine⦄ {A : Type 0} {P Q R : Suse → Type 0} where
  pub Ensures-map : (c : Cmd A) → ((s : Suse) → Q s → R s) → Ensures P c Q → Ensures P c R
  Ensures-map c f h = record { at = λ s p. After-map (c s) f (h.at s p) }

module _ ⦃m : Machine⦄ {A B : Type 0} {R Q : Suse → Type 0} where
  After-and_then :
      (r : Run A) (k : A → Cmd B)
      → After (λ _. R) r
      → ((a : A) → Ensures R (k a) Q)
      → After (λ _. Q) (and_then r k)
  After-and_then (ok a s) k h hk = (hk a).at s h
  After-and_then fault k h hk = tt
  After-and_then blocks k h hk = tt

module _ ⦃m : Machine⦄ {A B : Type 0} {P R Q : Suse → Type 0} where
  pub Ensures-bind :
      (c : Cmd A) (k : A → Cmd B)
      → Ensures P c R
      → ((a : A) → Ensures R (k a) Q)
      → Ensures P (c >>= k) Q
  unfolding ◌>>=◌
  Ensures-bind c k hc hk = record { at = λ s h. After-and_then (c s) k (hc.at s h) hk }

  pub Ensures-then : (c : Cmd A) (d : Cmd B) → Ensures P c R → Ensures R d Q → Ensures P (c >> d) Q
  unfolding ◌>>◌
  Ensures-then c d hc hd = record {
    at = λ s h. After-and_then (c s) (λ _. d) (hc.at s h) (λ _. hd);
  }

module _ ⦃m : Machine⦄ {A B : Type 0} {R Q : Suse → Type 0} where
  pub After-then :
      (c : Cmd A) (d : Cmd B) (s : Suse)
      → After (λ _. R) (c s)
      → Ensures R d Q
      → After (λ _. Q) ((c >> d) s)
  unfolding ◌>>◌
  After-then c d s hc hd = After-and_then (c s) (λ _. d) hc (λ _. hd)

  pub After-bind :
      (c : Cmd A) (k : A → Cmd B) (s : Suse)
      → After (λ _. R) (c s)
      → ((a : A) → Ensures R (k a) Q)
      → After (λ _. Q) ((c >>= k) s)
  unfolding ◌>>=◌
  After-bind c k s hc hk = After-and_then (c s) k hc hk

pub ruleset run_rules =
    (Keeps-pure, Keeps-gets, Keeps-or_fault, Ensures-if, Ensures-bind, Ensures-then)

module _ ⦃m : Machine⦄ {A B : Type 0} {I : Suse → Type 0} where
  pub Keeps-bind :
      (c : Cmd A) (k : A → Cmd B) → Keeps I c → ((a : A) → Keeps I (k a)) → Keeps I (c >>= k)
  Keeps-bind c k hc hk = Ensures-bind c k hc hk

  pub Keeps-then : (c : Cmd A) (d : Cmd B) → Keeps I c → Keeps I d → Keeps I (c >> d)
  Keeps-then c d hc hd = Ensures-then c d hc hd

pub ruleset keeps_rules = (Keeps-pure, Keeps-gets, Ensures-if, Keeps-bind, Keeps-then)
