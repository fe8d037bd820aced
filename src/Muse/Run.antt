-- ===== src/Muse/Run.antt =====
-- The primitive commands over the state of main_memory.c.
pub mod Locks
use tp_sistemas_operativos.Base.{
  ℕ, put, suc, Bool, true, false, Option, some, List, ◌==◌, if◌then◌else◌,
}
use tp_sistemas_operativos.Commons.{Ref}
use tp_sistemas_operativos.Comandos.{Run, ok, blocks, Cmd, or_fault, modify, ◌>>=◌}
use tp_sistemas_operativos.Muse.State.{Page, ArchivoMmap, Segment, Program, Mutex, same_mutex, Muse}

abbrev pub M : Type 0 → Type 0
M A = Cmd Muse A

unfoldable pub load_page : Ref → M Page
unfolding or_fault
load_page r s = or_fault (s.pages r) s

unfoldable pub load_segment : Ref → M Segment
unfolding or_fault
load_segment r s = or_fault (s.segments r) s

unfoldable pub load_program : Ref → M Program
unfolding or_fault
load_program r s = or_fault (s.programs r) s

unfoldable pub load_archivo : Ref → M ArchivoMmap
unfolding or_fault
load_archivo r s = or_fault (s.archivos r) s

unfoldable pub update_page : Ref → (Page → Page) → M (Unit {0})
unfolding ◌>>=◌ load_page
update_page r f = do p ← load_page r; modify λ s. record s { pages = put s.pages r (some (f p)) }

unfoldable pub update_segment : Ref → (Segment → Segment) → M (Unit {0})
unfolding ◌>>=◌ load_segment
update_segment r f = do
  x ← load_segment r
  modify λ s. record s { segments = put s.segments r (some (f x)) }

unfoldable pub update_program : Ref → (Program → Program) → M (Unit {0})
unfolding ◌>>=◌ load_program
update_program r f = do
  x ← load_program r
  modify λ s. record s { programs = put s.programs r (some (f x)) }

unfoldable pub new_page : Page → M Ref
new_page p s =
    ok s.next_ref (record s { pages = put s.pages s.next_ref (some p); next_ref = suc s.next_ref })

unfoldable pub new_segment : Segment → M Ref
new_segment x s =
    ok s.next_ref
      (record s { segments = put s.segments s.next_ref (some x); next_ref = suc s.next_ref })

unfoldable pub new_program : Program → M Ref
new_program x s =
    ok s.next_ref
      (record s { programs = put s.programs s.next_ref (some x); next_ref = suc s.next_ref })

-- `BITMAP[i] = b` and `BITMAP_SWAP_FILE[i] = b`.
unfoldable pub set_bitmap : ℕ → Bool → M (Unit {0})
unfolding modify
set_bitmap i b = modify λ s. record s { bitmap = put s.bitmap i b }

unfoldable pub set_bitmap_swap_file : ℕ → Bool → M (Unit {0})
unfolding modify
set_bitmap_swap_file i b = modify λ s. record s { bitmap_swap_file = put s.bitmap_swap_file i b }

-- A mutex of the default kind: its owner waits for ever on a second lock.
unfoldable pub lock_on : Bool → Mutex → M (Unit {0})
lock_on true k s = blocks
lock_on false k s = ok tt (record s { held = λ j. if same_mutex j k then true else s.held j })

unfoldable pub lock : Mutex → M (Unit {0})
unfolding lock_on
lock k s = lock_on (s.held k) k s

unfoldable pub unlock : Mutex → M (Unit {0})
unfolding modify
unlock k = modify λ s. record s { held = λ j. if same_mutex j k then false else s.held j }
