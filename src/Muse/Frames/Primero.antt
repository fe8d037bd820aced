-- ===== src/Muse/Frames/Primero.antt =====
-- `frame_swap_libre` and the counts of main_memory.c, against plain descriptions of a bitmap.
use tp_sistemas_operativos.Base.{
  ℕ, put, zero, suc, ◌+◌, ◌<◌, ◌≤◌, ◌≡◌, ◌⊎◌, refl, ap, sym, ◌∙◌, Bool, true, false, Option, none,
  some, arith, if◌then◌else◌, inl, inr,
}
use tp_sistemas_operativos.Comandos.{ok, pure, gets, modify, ◌>>=◌, ◌>>◌}
use tp_sistemas_operativos.Comandos.Eval.{if-true, if-false}
use tp_sistemas_operativos.Muse.State.{Muse, mutex_bitmap_mmap}
use tp_sistemas_operativos.Muse.Run.{M, lock, unlock, set_bitmap_swap_file}
use tp_sistemas_operativos.Muse.Run.Locks.{tomado, lock_then, soltado-tomado, held-vuelve}
use tp_sistemas_operativos.Muse.Frames.{primer_flag, tomar_swap, frame_swap_desde, frame_swap_libre}

-- `o` is the least number from `i` on, below `i + n`, whose flag is set.
abbrev pub EsPrimero : (ℕ → Bool) → ℕ → ℕ → Option ℕ → Type 0
EsPrimero f i n none = (j : ℕ) → i ≤ j → j < i + n → f j ≡ false
EsPrimero f i n (some m) =
    (i ≤ m) × (m < i + n) × (f m ≡ true) × ((j : ℕ) → i ≤ j → j < m → f j ≡ false)

desde : (i j : ℕ) → i ≤ j → (i ≡ j) ⊎ (i + 1 ≤ j)
desde i j h = omega arith

todas_desde :
    (f : ℕ → Bool) (i k : ℕ)
    → f i ≡ false
    → ((j : ℕ) → i + 1 ≤ j → j < k → f j ≡ false)
    → (j : ℕ) → i ≤ j
    → j < k
    → f j ≡ false
todas_desde f i k h p j a b = elim (desde i j a) [ inl e ↦ ap f (sym e) ∙ h | inr q ↦ p j q b ]

EsPrimero-suc :
    (f : ℕ → Bool) (i n : ℕ) (o : Option ℕ)
    → f i ≡ false
    → EsPrimero f (i + 1) n o
    → EsPrimero f i (suc n) o
EsPrimero-suc f i n none h p = λ j a b. todas_desde f i (i + 1 + n) h p j a (omega (arith, b))
EsPrimero-suc f i n (some m) h p =
    (omega (arith, p), omega (arith, p), p.2, todas_desde f i m h p.3)

EsPrimero-aqui : (f : ℕ → Bool) (i n : ℕ) → f i ≡ true → EsPrimero f i (suc n) (some i)
EsPrimero-aqui f i n h = (omega arith, omega arith, h, λ j a b. ground (arith, a, b))

EsPrimero-if :
    (f : ℕ → Bool) (i n : ℕ) (o : Option ℕ) (b : Bool)
    → f i ≡ b
    → EsPrimero f (i + 1) n o
    → EsPrimero f i (suc n) (if b then some i else o)
EsPrimero-if f i n o true h p = EsPrimero-aqui f i n h
EsPrimero-if f i n o false h p = EsPrimero-suc f i n o h p

pub primer_flag-EsPrimero : (f : ℕ → Bool) (i n : ℕ) → EsPrimero f i n (primer_flag f i n)
unfolding primer_flag
primer_flag-EsPrimero f i zero = λ j a b. ground (arith, a, b)
primer_flag-EsPrimero f i (suc n) =
    EsPrimero-if f i n (primer_flag f (i + 1) n) (f i) refl (primer_flag-EsPrimero f (i + 1) n)

-- The state once a frame of the swap file, if any, is taken.
abbrev pub con_swap_tomado : Muse → Option ℕ → Muse
con_swap_tomado s none = s
con_swap_tomado s (some n) = record s { bitmap_swap_file = put s.bitmap_swap_file n false }

tomar_swap-ok :
    (i : ℕ) (s : Muse)
    → s.held mutex_bitmap_mmap ≡ false
    → tomar_swap i (tomado mutex_bitmap_mmap s) ≡ ok (some i) (con_swap_tomado s (some i))
unfolding tomar_swap set_bitmap_swap_file unlock modify ◌>>◌ pure
tomar_swap-ok i s h =
    ap (λ x. ok (some i) (record s { held = x; bitmap_swap_file = put s.bitmap_swap_file i false }))
      (held-vuelve s.held mutex_bitmap_mmap h)

-- A round of `frame_swap_desde`, by the flag it reads.
ronda :
    (i : ℕ) (resto : M (Option ℕ)) (o : Option ℕ) (s : Muse) (b : Bool)
    → s.held mutex_bitmap_mmap ≡ false
    → s.bitmap_swap_file i ≡ b
    → resto s ≡ ok o (con_swap_tomado s o)
    → (do
      lock mutex_bitmap_mmap
      libre ← gets λ (t : Muse). t.bitmap_swap_file i
      if libre then tomar_swap i else (do unlock mutex_bitmap_mmap; resto))
        s
      ≡ ok (if b then some i else o) (con_swap_tomado s (if b then some i else o))
unfolding ◌>>=◌ ◌>>◌ gets unlock modify
ronda i resto o s true h hb hr =
    lock_then mutex_bitmap_mmap _ s h ∙ if-true _ _ _ _ hb ∙ tomar_swap-ok i s h
ronda i resto o s false h hb hr =
    lock_then mutex_bitmap_mmap _ s h
    ∙ if-false _ _ _ _ hb
    ∙ ap resto (soltado-tomado mutex_bitmap_mmap s h)
    ∙ hr

frame_swap_desde-primer_flag :
    (i n : ℕ) (s : Muse)
    → s.held mutex_bitmap_mmap ≡ false
    → frame_swap_desde i n s
      ≡ ok
          (primer_flag s.bitmap_swap_file i n)
          (con_swap_tomado s (primer_flag s.bitmap_swap_file i n))
unfolding frame_swap_desde primer_flag pure
frame_swap_desde-primer_flag i zero s h = refl
frame_swap_desde-primer_flag i (suc n) s h =
    ronda i (frame_swap_desde (i + 1) n) (primer_flag s.bitmap_swap_file (i + 1) n) s
      (s.bitmap_swap_file i) h refl (frame_swap_desde-primer_flag (i + 1) n s h)

pub frame_swap_libre-ok :
    (s : Muse)
    → s.held mutex_bitmap_mmap ≡ false
    → frame_swap_libre s
      ≡ ok
          (primer_flag s.bitmap_swap_file 0 s.total_frame_num_swap)
          (con_swap_tomado s (primer_flag s.bitmap_swap_file 0 s.total_frame_num_swap))
unfolding frame_swap_libre ◌>>=◌ gets
frame_swap_libre-ok s h = frame_swap_desde-primer_flag 0 s.total_frame_num_swap s h
