-- ===== src/Muse/Clock/Visita.antt =====
-- What a round of `dame_nro_frame_reemplazado` that finds no victim says of each page.
use tp_sistemas_operativos.Base.{
  ℕ, put, ◌≡◌, ◌⊎◌, inl, inr, refl, ap, sym, ◌∙◌, Bool, true, false, not, ◌&&◌, Option, none, some,
  arith, ◌==◌, if◌then◌else◌, subst,
}
use tp_sistemas_operativos.Commons.{Ref}
use tp_sistemas_operativos.Muse.State.{Page}
use tp_sistemas_operativos.Muse.Clock.{Paso, paso_1, paso_2, es_victima}

-- A page that a round may have passed: as it was, or not used any more.
abbrev pub Sigue : Option Page → Option Page → Type 0
Sigue none o = o ≡ none
Sigue (some p) o = (o ≡ some p) ⊎ (o ≡ some (record p { is_used = false }))

abbrev pub TodasSiguen : (Ref → Option Page) → (Ref → Option Page) → Type 0
TodasSiguen f g = (r : Ref) → Sigue (f r) (g r)

-- What a round that passed a page says of it: `p` in front of the round, `q` behind it.
abbrev pub Pasada : Paso → Page → Option Page → Type 0
Pasada paso_1 p q = p.is_present ≡ true → es_victima paso_1 p ≡ false
Pasada paso_2 p q =
    p.is_present ≡ true → (es_victima paso_2 p ≡ false) × (q ≡ some (record p { is_used = false }))

pub Sigue-refl : (o : Option Page) → Sigue o o
Sigue-refl none = refl
Sigue-refl (some p) = inl refl

pub Sigue-trans : (a b c : Option Page) → Sigue a b → Sigue b c → Sigue a c
Sigue-trans none b c h k = subst (λ x. Sigue x c) h k
Sigue-trans (some p) b c (inl e) k = subst (λ x. Sigue x c) e k
Sigue-trans (some p) b c (inr e) k = elim (subst (λ x. Sigue x c) e k) [
  | inl f ↦ inr f
  | inr f ↦ inr f
]

==-≡ : (a b : ℕ) → (a == b) ≡ true → a ≡ b
==-≡ a b h = ground (arith, h)

Sigue-if :
    (b : Bool) (o : Option Page) (p : Page)
    → (b ≡ true → o ≡ some p)
    → Sigue o (if b then some (record p { is_used = false }) else o)
Sigue-if true o p h =
    subst (λ x. Sigue x (some (record p { is_used = false }))) (sym (h refl)) (inr refl)
Sigue-if false o p h = Sigue-refl o

pub Sigue-put :
    (f : Ref → Option Page) (r q : Ref) (p : Page)
    → f r ≡ some p
    → Sigue (f q) (put f r (some (record p { is_used = false })) q)
Sigue-put f r q p e = Sigue-if (q == r) (f q) p (λ h. ap f (==-≡ q r h) ∙ e)

Sigue-apagada :
    (p : Page) (o q : Option Page)
    → o ≡ some (record p { is_used = false })
    → Sigue o q
    → q ≡ some (record p { is_used = false })
Sigue-apagada p o q e k = elim (subst (λ x. Sigue x q) e k) [ inl f ↦ f | inr f ↦ f ]

-- A page that was passed before more pages are.
pub Pasada-Sigue :
    (paso : Paso) (p : Page) (o q : Option Page) → Pasada paso p o → Sigue o q → Pasada paso p q
Pasada-Sigue paso_1 p o q h k = h
Pasada-Sigue paso_2 p o q h k = λ l. ((h l).0, Sigue-apagada p o q (h l).1 k)

nunca_1 : (u m : Bool) → not m ≡ false → (not u && not m) ≡ false
nunca_1 true m h = refl
nunca_1 false m h = h

nunca_2 : (u m : Bool) → m ≡ false → (not u && m) ≡ false
nunca_2 true m h = refl
nunca_2 false m h = h

-- A page that is passed after more pages are.
Pasada-apagada :
    (paso : Paso) (p : Page) (o : Option Page)
    → Pasada paso (record p { is_used = false }) o
    → Pasada paso p o
Pasada-apagada paso_1 p o k = λ l. nunca_1 p.is_used p.is_modify (k l)
Pasada-apagada paso_2 p o k = λ l. (nunca_2 p.is_used p.is_modify (k l).0, (k l).1)

-- A page that is passed once others are: it is there still.
pub Pasada-antes :
    (paso : Paso) (p : Page) (a b o : Option Page)
    → a ≡ some p
    → Sigue a b
    → ((q : Page) → b ≡ some q → Pasada paso q o)
    → Pasada paso p o
Pasada-antes paso p a b o e k h = elim (subst (λ x. Sigue x b) e k) [
  | inl f ↦ h p f
  | inr f ↦ Pasada-apagada paso p o (h (record p { is_used = false }) f)
]

abbrev o_bien : Page → Option Page → Page
o_bien d none = d
o_bien d (some p) = p

-- What is said of the page that is there is said of any page that is.
pub Pasada-misma :
    (paso : Paso) (p q : Page) (a o : Option Page)
    → a ≡ some p
    → a ≡ some q
    → Pasada paso p o
    → Pasada paso q o
Pasada-misma paso p q a o e f k = subst (λ x. Pasada paso x o) (ap (o_bien p) (sym e ∙ f)) k
