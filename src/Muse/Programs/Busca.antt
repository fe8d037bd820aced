-- ===== src/Muse/Programs/Busca.antt =====
-- `search_program` and `busca_segmento` of main_memory.c, against the first index that fits.
use tp_sistemas_operativos.Base.{
  ℕ, zero, suc, ◌+◌, ◌<◌, ◌≡◌, refl, ◌∙◌, Bool, true, false, ◌&&◌, Option, some, List, arith, leb,
  ◌==◌, if◌then◌else◌,
}
use tp_sistemas_operativos.Commons.{Ref, Lists}
use tp_sistemas_operativos.Comandos.{ok, pure}
use tp_sistemas_operativos.Comandos.Eval.{bind-ok, bind-gets}
use tp_sistemas_operativos.Muse.State.{Segment, Program, Muse}
use tp_sistemas_operativos.Muse.Run.{M, load_segment, load_program}
use tp_sistemas_operativos.Muse.Run.Locks.{load_segment-ok, load_program-ok}
use tp_sistemas_operativos.Muse.Frames.{primer_flag}
use tp_sistemas_operativos.Muse.Frames.Primero.{EsPrimero, primer_flag-EsPrimero}
use tp_sistemas_operativos.Muse.Programs.{search_desde, search_program, busca_desde, busca_segmento}

-- A round of a search that changes nothing.
o_sigue :
    (b : Bool) (i : ℕ) (resto : M (Option ℕ)) (o : Option ℕ) (s : Muse)
    → resto s ≡ ok o s
    → (if b then pure (some i) else resto) s ≡ ok (if b then some i else o) s
unfolding pure
o_sigue true i resto o s h = refl
o_sigue false i resto o s h = h

module _ ⦃c : Lists⦄ where
  open c use {list_get, list_size}

  search_desde-primer_flag :
      (prog : ℕ → Program) (pid i n : ℕ) (s : Muse)
      → ((k : ℕ) → k < i + n → s.programs (list_get s.program_list k) ≡ some (prog k))
      → search_desde pid i n s ≡ ok (primer_flag (λ k. (prog k).pid == pid) i n) s
  unfolding search_desde primer_flag pure
  search_desde-primer_flag prog pid i zero s h = refl
  search_desde-primer_flag prog pid i (suc n) s h =
      bind-gets _ _ s
      ∙ bind-ok (load_program (list_get s.program_list i)) _ s s (prog i)
          (load_program-ok (list_get s.program_list i) s (prog i) (h i (omega arith)))
      ∙ o_sigue ((prog i).pid == pid) i (search_desde pid (i + 1) n) _ s
          (search_desde-primer_flag prog pid (i + 1) n s (λ k l. h k (omega (arith, l))))

  -- With the programs of the list there, `search_program` returns the least index of a program with
  -- the pid, or none when no program has it, and changes nothing.
  pub search_program-EsPrimero :
      (prog : ℕ → Program) (pid : ℕ) (s : Muse)
      → ((k : ℕ)
          → k < list_size s.program_list
          → s.programs (list_get s.program_list k) ≡ some (prog k))
      → (o : Option ℕ) × (search_program pid s ≡ ok o s)
        × EsPrimero (λ k. (prog k).pid == pid) 0 (list_size s.program_list) o
  unfolding search_program
  search_program-EsPrimero prog pid s h = (
    primer_flag (λ k. (prog k).pid == pid) 0 (list_size s.program_list),
    bind-gets _ _ s
        ∙ search_desde-primer_flag prog pid 0 (list_size s.program_list) s
            (λ k l. h k (omega (arith, l))),
    primer_flag-EsPrimero (λ k. (prog k).pid == pid) 0 (list_size s.program_list),
  )

  -- The address is from the base of a segment to its limit, which counts.
  abbrev pub contiene : ℕ → Segment → Bool
  contiene direccion x = leb x.base direccion && leb direccion x.limit

  busca_desde-primer_flag :
      (segs : ℕ → Segment) (tabla : List Ref) (direccion i n : ℕ) (s : Muse)
      → ((k : ℕ) → k < i + n → s.segments (list_get tabla k) ≡ some (segs k))
      → busca_desde tabla direccion i n s
        ≡ ok (primer_flag (λ k. contiene direccion (segs k)) i n) s
  unfolding busca_desde primer_flag pure
  busca_desde-primer_flag segs tabla direccion i zero s h = refl
  busca_desde-primer_flag segs tabla direccion i (suc n) s h =
      bind-ok (load_segment (list_get tabla i)) _ s s (segs i)
        (load_segment-ok (list_get tabla i) s (segs i) (h i (omega arith)))
      ∙ o_sigue (contiene direccion (segs i)) i (busca_desde tabla direccion (i + 1) n) _ s
          (busca_desde-primer_flag segs tabla direccion (i + 1) n s (λ k l. h k (omega (arith, l))))

  -- With the segments of the program there, `busca_segmento` returns the least index of a segment
  -- that contains the address, its limit included, or none when no segment does, and changes
  -- nothing.
  pub busca_segmento-EsPrimero :
      (segs : ℕ → Segment) (prog : Ref) (p : Program) (direccion : ℕ) (s : Muse)
      → s.programs prog ≡ some p
      → ((k : ℕ)
          → k < list_size p.segment_table
          → s.segments (list_get p.segment_table k) ≡ some (segs k))
      → (o : Option ℕ) × (busca_segmento prog direccion s ≡ ok o s)
        × EsPrimero (λ k. contiene direccion (segs k)) 0 (list_size p.segment_table) o
  unfolding busca_segmento
  busca_segmento-EsPrimero segs prog p direccion s e h = (
    primer_flag (λ k. contiene direccion (segs k)) 0 (list_size p.segment_table),
    bind-ok (load_program prog) _ s s p (load_program-ok prog s p e)
        ∙ busca_desde-primer_flag segs p.segment_table direccion 0 (list_size p.segment_table) s
            (λ k l. h k (omega (arith, l))),
    primer_flag-EsPrimero (λ k. contiene direccion (segs k)) 0 (list_size p.segment_table),
  )
