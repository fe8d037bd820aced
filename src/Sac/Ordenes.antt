-- ===== src/Sac/Ordenes.antt =====
-- Commands over the disk of SAC: the mutexes of filesystem/sac_handlers.c, writes to a node, and the
-- conversions of C between `int` and `uint32_t`. A node outside of the table is a fault: what stands
-- in that memory is not modelled.
use tp_sistemas_operativos.Base.{
  ◌<◌, ◌≡◌, ap, arith, ℕ, ◌-◌, ◌%◌, ◌^◌, Bool, true, false, Option, none, some, ltb, if◌then◌else◌,
}
use tp_sistemas_operativos.Base.Int.{ℤ, pos, negsuc}
use tp_sistemas_operativos.Comandos.{Run, ok, fault, blocks, Cmd, modify}
use tp_sistemas_operativos.Sac.Disco.{Bitarrays, Disco, Gfile, max_number_of_files}
use tp_sistemas_operativos.Sac.Bloques.{con_nodo}

-- An `int` as `uint32_t`, and back.
unfoldable pub a_uint32 : ℤ → ℕ
a_uint32 (pos n) = n % 2 ^ 32
a_uint32 (negsuc e) = 2 ^ 32 - 1 - e % 2 ^ 32

unfoldable pub a_int : ℕ → ℤ
a_int w = if ltb (w % 2 ^ 32) (2 ^ 31) then pos (w % 2 ^ 32) else negsuc (2 ^ 32 - 1 - w % 2 ^ 32)

module _ ⦃c : Bitarrays⦄ where
  open c use {Bits, bitarray_clean_bit}

  -- A mutex of the default kind: its owner waits for ever on a second lock.
  abbrev pub tomar_si : Bool → Disco → Run Disco (Unit {0})
  tomar_si true d = blocks
  tomar_si false d = ok tt d

  unfoldable pub tomar_bitmap : Cmd Disco (Unit {0})
  tomar_bitmap d = tomar_si d.s_bitmap (record d { s_bitmap = true })

  unfoldable pub soltar_bitmap : Cmd Disco (Unit {0})
  unfolding modify
  soltar_bitmap = modify λ d. record d { s_bitmap = false }

  unfoldable pub tomar_tabla : Cmd Disco (Unit {0})
  tomar_tabla d = tomar_si d.s_tabla_de_nodos (record d { s_tabla_de_nodos = true })

  unfoldable pub soltar_tabla : Cmd Disco (Unit {0})
  unfolding modify
  soltar_tabla = modify λ d. record d { s_tabla_de_nodos = false }

  unfoldable pub limpiar_bit : ℕ → Cmd Disco (Unit {0})
  unfolding modify
  limpiar_bit i = modify λ d. record d { bitmap = bitarray_clean_bit d.bitmap i }

  unfoldable pub cambiar_nodo : ℕ → (Gfile → Gfile) → Cmd Disco (Unit {0})
  unfolding modify
  cambiar_nodo n f = modify λ d. con_nodo d n (f (d.tabla_de_nodos n))

  -- The number of a node that a write or a read goes through.
  unfoldable pub nodo_valido : ℤ → Cmd Disco ℕ
  nodo_valido (pos n) d = elim (ltb n max_number_of_files) [ true ↦ ok n d | false ↦ fault ]
  nodo_valido (negsuc e) d = fault

  pub nodo_valido-ok :
      (n : ℕ) (d : Disco) → n < max_number_of_files → nodo_valido (pos n) d ≡ ok n d
  unfolding nodo_valido
  nodo_valido-ok n d h = ap (λ b. elim b [ true ↦ ok n d | false ↦ fault ]) (dentro n h)
    where
      dentro : (n : ℕ) → n < max_number_of_files → ltb n max_number_of_files ≡ true
      dentro n h = ground (arith, h)

  -- A function that blocks on a mutex.
  unfoldable pub llamar : {A : Type 0} → (Disco → Option (A × Disco)) → Cmd Disco A
  llamar f d = elim (f d) [ none ↦ blocks | some (a, d') ↦ ok a d' ]
