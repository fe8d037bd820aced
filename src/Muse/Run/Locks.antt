-- ===== src/Muse/Run/Locks.antt =====
-- The mutexes of main_memory.h: what a critical section leaves behind; objects that are there.
use tp_sistemas_operativos.Base.{
  ◌≡◌, refl, ap, sym, fun_ext, put, some, Bool, true, false, if◌then◌else◌,
}
use tp_sistemas_operativos.Comandos.{ok, blocks, or_fault, modify, and_then, ◌>>◌}
use tp_sistemas_operativos.Comandos.Eval.{bind-ok}
use tp_sistemas_operativos.Commons.{Ref}
use tp_sistemas_operativos.Muse.State.{
  Page, Segment, Program, Mutex, Muse, same_mutex, mutex_bitmap_heap, mutex_bitmap_mmap, mutex_mm,
  mutex_clock, mutex_lock,
}
use tp_sistemas_operativos.Muse.Run.{
  M, load_page, load_segment, load_program, update_page, lock, unlock, lock_on,
}

-- The state in which `k` is taken, and the one in which it is free.
abbrev pub tomado : Mutex → Muse → Muse
tomado k s = record s { held = λ j. if same_mutex j k then true else s.held j }

abbrev pub soltado : Mutex → Muse → Muse
soltado k s = record s { held = λ j. if same_mutex j k then false else s.held j }

libre_igual :
    (held : Mutex → Bool) (k j : Mutex)
    → held k ≡ false
    → (if same_mutex j k then false else if same_mutex j k then true else held j) ≡ held j
libre_igual held mutex_bitmap_heap mutex_bitmap_heap h = sym h
libre_igual held mutex_bitmap_heap mutex_bitmap_mmap h = refl
libre_igual held mutex_bitmap_heap mutex_mm h = refl
libre_igual held mutex_bitmap_heap mutex_clock h = refl
libre_igual held mutex_bitmap_heap mutex_lock h = refl
libre_igual held mutex_bitmap_mmap mutex_bitmap_heap h = refl
libre_igual held mutex_bitmap_mmap mutex_bitmap_mmap h = sym h
libre_igual held mutex_bitmap_mmap mutex_mm h = refl
libre_igual held mutex_bitmap_mmap mutex_clock h = refl
libre_igual held mutex_bitmap_mmap mutex_lock h = refl
libre_igual held mutex_mm mutex_bitmap_heap h = refl
libre_igual held mutex_mm mutex_bitmap_mmap h = refl
libre_igual held mutex_mm mutex_mm h = sym h
libre_igual held mutex_mm mutex_clock h = refl
libre_igual held mutex_mm mutex_lock h = refl
libre_igual held mutex_clock mutex_bitmap_heap h = refl
libre_igual held mutex_clock mutex_bitmap_mmap h = refl
libre_igual held mutex_clock mutex_mm h = refl
libre_igual held mutex_clock mutex_clock h = sym h
libre_igual held mutex_clock mutex_lock h = refl
libre_igual held mutex_lock mutex_bitmap_heap h = refl
libre_igual held mutex_lock mutex_bitmap_mmap h = refl
libre_igual held mutex_lock mutex_mm h = refl
libre_igual held mutex_lock mutex_clock h = refl
libre_igual held mutex_lock mutex_lock h = sym h

-- A free mutex that is taken and given back is as it was.
pub held-vuelve :
    (held : Mutex → Bool) (k : Mutex)
    → held k ≡ false
    → (λ (j : Mutex). if same_mutex j k then false else if same_mutex j k then true else held j)
      ≡ held
held-vuelve held k h = fun_ext λ j. libre_igual held k j h

pub soltado-tomado : (k : Mutex) (s : Muse) → s.held k ≡ false → soltado k (tomado k s) ≡ s
soltado-tomado k s h = ap (λ x. record s { held = x }) (held-vuelve s.held k h)

pub lock-libre : (k : Mutex) (s : Muse) → s.held k ≡ false → lock k s ≡ ok tt (tomado k s)
unfolding lock lock_on
lock-libre k s h = ap (λ b. lock_on b k s) h

pub lock-tomado : (k : Mutex) (s : Muse) → s.held k ≡ true → lock k s ≡ blocks
unfolding lock lock_on
lock-tomado k s h = ap (λ b. lock_on b k s) h

-- After a lock on a free mutex.
pub lock_then :
    {A : Type 0} (k : Mutex) (d : M A) (s : Muse)
    → s.held k ≡ false
    → (lock k >> d) s ≡ d (tomado k s)
unfolding ◌>>◌
lock_then k d s h = ap (λ r. and_then r (λ _. d)) (lock-libre k s h)

pub load_page-ok : (r : Ref) (s : Muse) (p : Page) → s.pages r ≡ some p → load_page r s ≡ ok p s
unfolding load_page or_fault
load_page-ok r s p h = ap (λ o. or_fault o s) h

pub load_segment-ok :
    (r : Ref) (s : Muse) (x : Segment) → s.segments r ≡ some x → load_segment r s ≡ ok x s
unfolding load_segment or_fault
load_segment-ok r s x h = ap (λ o. or_fault o s) h

pub load_program-ok :
    (r : Ref) (s : Muse) (x : Program) → s.programs r ≡ some x → load_program r s ≡ ok x s
unfolding load_program or_fault
load_program-ok r s x h = ap (λ o. or_fault o s) h

pub update_page-ok :
    (r : Ref) (f : Page → Page) (s : Muse) (p : Page)
    → s.pages r ≡ some p
    → update_page r f s ≡ ok tt (record s { pages = put s.pages r (some (f p)) })
unfolding update_page modify
update_page-ok r f s p h = bind-ok (load_page r) _ s s p (load_page-ok r s p h)

-- A mutex that is given back in `t`, the state that is `s` but for the mutex.
pub unlock_then :
    {A : Type 0} (k : Mutex) (d : M A) (s : Muse)
    → s.held k ≡ false
    → (unlock k >> d) (tomado k s) ≡ d s
unfolding unlock ◌>>◌ modify
unlock_then k d s h = ap d (soltado-tomado k s h)
