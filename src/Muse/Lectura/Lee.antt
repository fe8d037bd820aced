-- ===== src/Muse/Lectura/Lee.antt =====
-- `memory_get` on a heap segment whose pages are in the main memory.
use native.Mathlib.Nat.{div-add-mod', le_of_mul-le-mul_right}
use tp_sistemas_operativos.Base.{
  ℕ, zero, suc, ◌+◌, ◌-◌, ◌*◌, ◌/◌, ◌%◌, ◌<◌, ◌≤◌, ◌≡◌, refl, ap, ap₂, sym, ◌∙◌, subst, true, false,
  none, some, List, [], ◌∷◌, ◌++◌, arith, take, ltb, ◌==◌, if◌then◌else◌,
}
use tp_sistemas_operativos.Base.Lists.{drop}
use tp_sistemas_operativos.Commons.{Ref, null, Lists}
use tp_sistemas_operativos.Comandos.{ok, pure}
use tp_sistemas_operativos.Comandos.Eval.{bind-ok, bind-gets, then-ok, if-true, if-false}
use tp_sistemas_operativos.Muse.State.{Page, Segment, Program, Muse, mutex_lock}
use tp_sistemas_operativos.Muse.Run.{load_page, load_segment, load_program}
use tp_sistemas_operativos.Muse.Run.Locks.{
  tomado, lock_then, unlock_then, load_page-ok, load_segment-ok, load_program-ok,
}
use tp_sistemas_operativos.Muse.Frames.{frames_needed}
use tp_sistemas_operativos.Muse.Frames.Cuenta.{frames_needed-EsMenor}
use tp_sistemas_operativos.Muse.Marcos.{traer_pagina, obtener_data_marco_heap}
use tp_sistemas_operativos.Muse.Metadata.{u32}
use tp_sistemas_operativos.Muse.Metadata.Contigua.{read_bytes-contigua}
use tp_sistemas_operativos.Muse.Metadata.Residente.{Residente}
use tp_sistemas_operativos.Muse.Metadata.Refina.{marcos, segmento_bytes, en_segmento}
use tp_sistemas_operativos.Muse.Programs.{search_program, busca_segmento}
use tp_sistemas_operativos.Muse.Lectura.{
  leidos, datos_de, cargar_paginas, leer_de, leer_segmento, permiso_de_lectura, programa_que_lee,
  memory_get,
}
use tp_sistemas_operativos.Wire.Bytes.{Buffer, read_bytes, read_bytes-append}

suc-suma : (n m : ℕ) → suc n + m ≡ suc (n + m)
suc-suma n m = omega arith

partes : (o n todo : ℕ) → o + n ≤ todo → todo ≡ o + (n + (todo - (o + n)))
partes o n todo h = omega (arith, h)

take-read_bytes :
    (n m : ℕ) (b : Buffer) (at : ℕ) → take n (read_bytes b at (n + m)) ≡ read_bytes b at n
unfolding read_bytes
take-read_bytes zero m b at = refl
take-read_bytes (suc n) m b at =
    ap (λ k. take (suc n) (read_bytes b at k)) (suc-suma n m)
    ∙ ap (λ l. b at ∷ l) (take-read_bytes n m b (at + 1))

drop-read_bytes :
    (n m : ℕ) (b : Buffer) (at : ℕ) → drop n (read_bytes b at (n + m)) ≡ read_bytes b (at + n) m
unfolding read_bytes
drop-read_bytes zero m b at = ap₂ (read_bytes b) (omega arith) (omega arith)
drop-read_bytes (suc n) m b at =
    ap (λ k. drop (suc n) (read_bytes b at k)) (suc-suma n m)
    ∙ drop-read_bytes n m b (at + 1)
    ∙ ap (λ k. read_bytes b k m) (omega arith)

-- A piece of what was read.
trozo :
    (b : Buffer) (at o n todo : ℕ)
    → o + n ≤ todo
    → take n (drop o (read_bytes b at todo)) ≡ read_bytes b (at + o) n
trozo b at o n todo h =
    ap (λ k. take n (drop o (read_bytes b at k))) (partes o n todo h)
    ∙ ap (take n) (drop-read_bytes o (n + (todo - (o + n))) b at)
    ∙ take-read_bytes n (todo - (o + n)) b (at + o)

resta_paginas : (ps q r m : ℕ) → q * ps + m ≤ (q + r) * ps → m ≤ r * ps
resta_paginas ps q r m h = grind (arith, h)

mas_cero : (n : ℕ) → n ≡ n + 0
mas_cero n = omega arith

cero_paginas : (ps : ℕ) → 0 * ps ≡ 0
cero_paginas ps = omega arith

suc_paginas : (k ps : ℕ) → ps + k * ps ≡ suc k * ps
suc_paginas k ps = grind arith

pagina_mas_uno : (q ps : ℕ) → (q + 1) * ps ≡ q * ps + ps
pagina_mas_uno q ps = grind arith

append_nil : (l : List ℕ) → l ++ [] ≡ l
append_nil [] = refl
append_nil (x ∷ l) = ap (λ k. x ∷ k) (append_nil l)

append_assoc : (a b d : List ℕ) → (a ++ b) ++ d ≡ a ++ (b ++ d)
append_assoc [] b d = refl
append_assoc (x ∷ a) b d = ap (λ k. x ∷ k) (append_assoc a b d)

-- The pages from `q` on that a piece of a segment needs are pages of the segment.
paginas-caben :
    (ps n d k : ℕ) → 0 < ps → d + k ≤ n * ps → d / ps + frames_needed ps (d % ps + k) ≤ n
paginas-caben ps n d k p h =
    let q : ℕ = d / ps in
    let e : q * ps + d % ps ≡ d = div-add-mod' d ps in
    let antes : q * ps ≤ n * ps = omega (arith, e, h) in
    let debajo : q ≤ n = le_of_mul-le-mul_right antes p in
    let m : n ≡ q + (n - q) = omega (arith, debajo) in
    let entra : d % ps + k ≤ (n - q) * ps =
      resta_paginas ps q (n - q) (d % ps + k)
        (subst (λ v. q * ps + (d % ps + k) ≤ v * ps) m (omega (arith, h, e))) in
    omega (arith, debajo, (frames_needed-EsMenor ps (d % ps + k) (n - q) p).1 entra)

module _ ⦃c : Lists⦄ (tope : ℕ) (x : Segment) (pagina : ℕ → Page) (n : ℕ) where
  open c use {list_get}

  datos_de-ok :
      (q : ℕ) (s : Muse)
      → x.is_heap ≡ true
      → Residente s x pagina n
      → q < n
      → datos_de tope x (list_get x.page_table q) q s ≡ ok (pagina q).fr s
  unfolding datos_de obtener_data_marco_heap pure
  datos_de-ok q s h r i =
      if-true x.is_heap _ _ s h
      ∙ bind-ok (load_page (list_get x.page_table q)) _ s s (pagina q)
          (load_page-ok (list_get x.page_table q) s (pagina q) (r.cargada q i))
      ∙ then-ok
          (if (pagina q).is_present then pure tt else traer_pagina tope (list_get x.page_table q)) _
          s s tt
          (if-true (pagina q).is_present (pure tt) (traer_pagina tope (list_get x.page_table q)) s
            (r.presente q i))
      ∙ bind-ok (load_page (list_get x.page_table q)) _ s s (pagina q)
          (load_page-ok (list_get x.page_table q) s (pagina q) (r.cargada q i))

  leer_pagina :
      (q : ℕ) (s : Muse)
      → read_bytes s.main_memory (pagina q).fr s.page_size
        ≡ read_bytes (segmento_bytes s pagina) (q * s.page_size) s.page_size
  leer_pagina q s =
      ap (λ a. read_bytes s.main_memory a s.page_size) (mas_cero (pagina q).fr)
      ∙ read_bytes-contigua (marcos pagina) s.page_size s.main_memory q 0 s.page_size (omega arith)
      ∙ ap (λ a. read_bytes (segmento_bytes s pagina) a s.page_size)
          (sym (mas_cero (q * s.page_size)))

  cargar_paginas-ok :
      (q k : ℕ) (buffer : List ℕ) (s : Muse)
      → x.is_heap ≡ true
      → Residente s x pagina n
      → q + k ≤ n
      → cargar_paginas tope x q k buffer s
        ≡ ok (buffer ++ read_bytes (segmento_bytes s pagina) (q * s.page_size) (k * s.page_size)) s
  unfolding cargar_paginas pure read_bytes
  cargar_paginas-ok q zero buffer s h r i =
      ap (λ l. ok l s)
        (sym (
          ap (λ k. buffer ++ read_bytes (segmento_bytes s pagina) (q * s.page_size) k)
            (cero_paginas s.page_size)
          ∙ append_nil buffer))
  cargar_paginas-ok q (suc k) buffer s h r i =
      bind-ok (datos_de tope x (list_get x.page_table q) q) _ s s (pagina q).fr
        (datos_de-ok q s h r (omega (arith, i)))
      ∙ bind-gets _ _ s
      ∙ cargar_paginas-ok (q + 1) k _ s h r (omega (arith, i))
      ∙ ap (λ l. ok l s)
          (append_assoc buffer (read_bytes s.main_memory (pagina q).fr s.page_size) _
            ∙ ap (λ l. buffer ++ l)
                (ap₂ ◌++◌ (leer_pagina q s) (
                    ap (λ a. read_bytes (segmento_bytes s pagina) a (k * s.page_size))
                      (pagina_mas_uno q s.page_size))
                  ∙ sym (
                      read_bytes-append s.page_size (k * s.page_size) (segmento_bytes s pagina)
                        (q * s.page_size))
                  ∙ ap (read_bytes (segmento_bytes s pagina) (q * s.page_size))
                      (suc_paginas k s.page_size)))

  -- The bytes at an address of the segment.
  leer_de-ok :
      (src num_bytes : ℕ) (s : Muse)
      → x.is_heap ≡ true
      → Residente s x pagina n
      → 0 < s.page_size
      → s.held mutex_lock ≡ false
      → en_segmento x src + num_bytes ≤ n * s.page_size
      → leer_de tope x src num_bytes s
        ≡ ok (leidos (read_bytes (segmento_bytes s pagina) (en_segmento x src) num_bytes)) s
  unfolding leer_de pure
  leer_de-ok src num_bytes s h r p l k =
      let ps : ℕ = s.page_size in
      let d : ℕ = en_segmento x src in
      let o : ℕ = d % ps in
      let cuantas : ℕ = frames_needed ps (o + num_bytes) in
      let s1 : Muse = tomado mutex_lock s in
      let buffer : List ℕ = read_bytes (segmento_bytes s pagina) (d / ps * ps) (cuantas * ps) in
      bind-gets _ _ s
      ∙ lock_then mutex_lock _ s l
      ∙ bind-ok (cargar_paginas tope x (d / ps) cuantas []) _ s1 s1 buffer (
          cargar_paginas-ok (d / ps) cuantas [] s1 h
            (record { cargada = r.cargada; presente = r.presente; separada = r.separada })
            (paginas-caben ps n d num_bytes p k))
      ∙ unlock_then mutex_lock _ s l
      ∙ ap (λ b. ok (leidos b) s)
          (trozo (segmento_bytes s pagina) (d / ps * ps) o num_bytes (cuantas * ps)
              (frames_needed-EsMenor ps (o + num_bytes) 0 p).0
            ∙ ap (λ a. read_bytes (segmento_bytes s pagina) a num_bytes) (div-add-mod' d ps))

  -- `memory_get` returns the `num_bytes` bytes at the address `src` and changes nothing, when the
  -- program is on the list, the segment of the address is found, is heap, has its pages in the main
  -- memory and reaches as far as the read, and `mutex_lock` is free.
  pub memory_get-lee :
      (sin_iniciar src num_bytes pid i j : ℕ) (seg : Ref) (p : Program) (s : Muse)
      → search_program pid s ≡ ok (some i) s
      → s.programs (list_get s.program_list i) ≡ some p
      → busca_segmento (list_get s.program_list i) src s ≡ ok (some j) s
      → list_get p.segment_table j ≡ seg
      → (seg == null) ≡ false
      → s.segments seg ≡ some x
      → x.is_heap ≡ true
      → Residente s x pagina n
      → 0 < s.page_size
      → s.held mutex_lock ≡ false
      → src + num_bytes ≤ u32 (x.base + x.limit)
      → en_segmento x src + num_bytes ≤ n * s.page_size
      → memory_get tope sin_iniciar src num_bytes pid s
        ≡ ok (leidos (read_bytes (segmento_bytes s pagina) (en_segmento x src) num_bytes)) s
  unfolding memory_get leer_segmento permiso_de_lectura programa_que_lee pure
  memory_get-lee sin_iniciar src num_bytes pid i j seg p s hp pp hs js nulo sx h r ps l lim k =
      let prog : Ref = list_get s.program_list i in
      then-ok (search_program pid) _ s s (some i) hp
      ∙ bind-ok (search_program pid) _ s s (some i) hp
      ∙ bind-gets _ _ s
      ∙ bind-ok (busca_segmento prog src) _ s s (some j) hs
      ∙ bind-ok (load_program prog) _ s s p (load_program-ok prog s p pp)
      ∙ if-false (list_get p.segment_table j == null) _ _ s (ap (λ a. a == null) js ∙ nulo)
      ∙ bind-ok (load_segment (list_get p.segment_table j)) _ s s x
          (ap (λ a. load_segment a s) js ∙ load_segment-ok seg s x sx)
      ∙ if-false (ltb (u32 (x.base + x.limit)) (src + num_bytes)) _ _ s (ground (arith, lim))
      ∙ bind-ok (permiso_de_lectura x p.pid) _ s s none (if-true x.is_heap _ _ s h)
      ∙ leer_de-ok src num_bytes s h r ps l k
