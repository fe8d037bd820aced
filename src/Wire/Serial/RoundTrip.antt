-- ===== src/Wire/Serial/RoundTrip.antt =====
-- What the functions of libraries.c write they read back, and the size asked for is the size used.
use tp_sistemas_operativos.Base.{
  ℕ, ◌+◌, ◌*◌, ◌^◌, ◌≤◌, ◌<◌, ◌≡◌, ◌≢◌, refl, subst, ap, ap₂, ◌∙◌, sym, inl, List, [], ◌∷◌, arith,
  length, length-append, All, map,
}
use tp_sistemas_operativos.Wire.Bytes.{
  Buffer, write_bytes, read_bytes, le_bytes, of_le, length-le_bytes, of_le-le_bytes, Holds,
  of_le-Holds, read-write_bytes, read-write_le_bytes, read_bytes-outside,
}
use tp_sistemas_operativos.Wire.Serial.{
  CString, size_of_string, with_nul, c_string, serializar_int, serializar_string,
  deserializar_string, serializar_valores, serializar_lista_strings, deserializar_valores,
  deserializar_lista_strings, agregar_tamanios, size_of_list_of_strings_to_serialize,
}

-- A character that a C string can hold.
abbrev pub IsText : CString → Type 0
IsText = All (λ x. x ≢ 0)

length-with_nul : (s : CString) → length (with_nul s) ≡ size_of_string s
unfolding size_of_string
length-with_nul s = omega (arith, length-append s (0 ∷ []))

c_string-with_nul : (s : CString) → IsText s → c_string (with_nul s) ≡ s
unfolding c_string
c_string-with_nul [] h = refl
c_string-with_nul (x ∷ s) h = ground (arith, c_string-with_nul s h.1)

-- The displacement behind a list of strings that starts at `at`.
fin : ℕ → List CString → ℕ
fin at [] = at
fin at (s ∷ l) = fin (at + 4 + size_of_string s) l

-- At `at` the buffer holds the image of a list of strings.
abbrev Image : Buffer → ℕ → List CString → Type 0
Image b at [] = Unit {0}
Image b at (s ∷ l) =
    Holds b at (le_bytes 4 (size_of_string s))
    × Holds b (at + 4) (with_nul s)
    × Image b (at + 4 + size_of_string s) l

-- A string whose size is an `int`.
abbrev IsSmall : CString → Type 0
IsSmall s = size_of_string s < 2 ^ 31

deserializar_string-image :
    (b : Buffer) (at : ℕ) (s : CString)
    → IsSmall s
    → Holds b at (le_bytes 4 (size_of_string s))
    → Holds b (at + 4) (with_nul s)
    → deserializar_string b at ≡ (with_nul s, at + 4 + size_of_string s)
unfolding deserializar_string
deserializar_string-image b at s small size chars =
    let e = of_le-Holds b at 4 (size_of_string s) (omega (arith, small)) size in
    let f = ap (read_bytes b (at + 4)) (sym (length-with_nul s)) ∙ chars in rw (e, f) refl

deserializar_valores-Image :
    (b : Buffer) (at : ℕ) (l : List CString)
    → All IsSmall l
    → Image b at l
    → deserializar_valores b at (length l) ≡ (map with_nul l, fin at l)
unfolding deserializar_valores fin
deserializar_valores-Image b at [] small h = refl
deserializar_valores-Image b at (s ∷ l) small h =
    rw (deserializar_string-image b at s small.0 h.0 h.1)
      (rw (deserializar_valores-Image b (at + 4 + size_of_string s) l small.1 h.2) refl)

serializar_valores-outside :
    (l : List CString) (b : Buffer) (at k n : ℕ)
    → k + n ≤ at
    → read_bytes (serializar_valores (b, at) l).0 k n ≡ read_bytes b k n
unfolding serializar_valores serializar_string
serializar_valores-outside [] b at k n h = refl
serializar_valores-outside (s ∷ l) b at k n h =
    serializar_valores-outside l _ (at + 4 + size_of_string s) k n (omega arith)
    ∙ read_bytes-outside _ k n (at + 4) (with_nul s) (inl (omega arith))
    ∙ read_bytes-outside b k n at _ (inl h)

serializar_valores-Image :
    (l : List CString) (b : Buffer) (at : ℕ) → Image (serializar_valores (b, at) l).0 at l
unfolding serializar_valores serializar_string
serializar_valores-Image [] b at = tt
serializar_valores-Image (s ∷ l) b at = (
  serializar_valores-outside l _ (at + 4 + size_of_string s) at _
        (omega (arith, length-le_bytes 4 (size_of_string s)))
      ∙ read_bytes-outside _ at _ (at + 4) (with_nul s)
          (inl (omega (arith, length-le_bytes 4 (size_of_string s))))
      ∙ read-write_bytes b at (le_bytes 4 (size_of_string s)),
  serializar_valores-outside l _ (at + 4 + size_of_string s) (at + 4) _
        (omega (arith, length-with_nul s))
      ∙ read-write_bytes _ (at + 4) (with_nul s),
  serializar_valores-Image l _ (at + 4 + size_of_string s),
)

serializar_valores-fin :
    (l : List CString) (b : Buffer) (at : ℕ) → (serializar_valores (b, at) l).1 ≡ fin at l
unfolding serializar_valores serializar_string fin
serializar_valores-fin [] b at = refl
serializar_valores-fin (s ∷ l) b at = serializar_valores-fin l _ (at + 4 + size_of_string s)

map-c_string-with_nul : (l : List CString) → All IsText l → map c_string (map with_nul l) ≡ l
map-c_string-with_nul [] h = refl
map-c_string-with_nul (s ∷ l) h = ap₂ ◌∷◌ (c_string-with_nul s h.0) (map-c_string-with_nul l h.1)

fin_grows : (at : ℕ) (l : List CString) → at + length l ≤ fin at l
unfolding fin
fin_grows at [] = omega arith
fin_grows at (s ∷ l) = omega (arith, fin_grows (at + 4 + size_of_string s) l)

fin-IsSmall : (at : ℕ) (l : List CString) → fin at l < 2 ^ 31 → All IsSmall l
unfolding fin
fin-IsSmall at [] h = tt
fin-IsSmall at (s ∷ l) h = (
  omega (arith, fin_grows (at + 4 + size_of_string s) l),
  fin-IsSmall (at + 4 + size_of_string s) l h,
)

-- A list of strings of characters other than NUL is read back as it was from where it was
-- serialized, and both displacements end behind it, if the displacement behind it is below 2 ^ 31,
-- as far as an `int` goes.
pub deserializar-serializar_lista :
    (b : Buffer) (at : ℕ) (l : List CString)
    → All IsText l
    → (serializar_lista_strings (b, at) l).1 < 2 ^ 31
    → let salida = serializar_lista_strings (b, at) l in
      let leido = deserializar_lista_strings salida.0 at in
      (map c_string leido.0 ≡ l) × (leido.1 ≡ salida.1)
unfolding serializar_lista_strings deserializar_lista_strings serializar_int
deserializar-serializar_lista b at l text ends =
    let b' = write_bytes b at (le_bytes 4 (length l)) in
    let c = (serializar_valores (b', at + 4) l).0 in
    let bound : fin (at + 4) l < 2 ^ 31 =
      subst (λ k. k < 2 ^ 31) (serializar_valores-fin l b' (at + 4)) ends in
    let small = fin-IsSmall (at + 4) l bound in
    let size =
      serializar_valores-outside l b' (at + 4) at 4 (omega arith)
      ∙ read-write_le_bytes b at 4 (length l) in
    let count =
      ap of_le size ∙ of_le-le_bytes 4 (length l) (omega (arith, fin_grows (at + 4) l, bound)) in
    let image =
      deserializar_valores-Image c (at + 4) l small (serializar_valores-Image l b' (at + 4)) in
    rw (count, image) (map-c_string-with_nul l text, sym (serializar_valores-fin l b' (at + 4)))

fin-agregar_tamanios :
    (l : List CString) (at : ℕ) → fin at l ≡ agregar_tamanios (length l * 4 + at) l
unfolding fin agregar_tamanios
fin-agregar_tamanios [] at = omega arith
fin-agregar_tamanios (s ∷ l) at =
    fin-agregar_tamanios l (at + 4 + size_of_string s)
    ∙ ap (λ k. agregar_tamanios k l) (omega arith)

-- The size that `size_of_list_of_strings_to_serialize` asks for is how far `serializar_lista_strings`
-- goes.
pub serializar_lista-size :
    (b : Buffer) (l : List CString)
    → (serializar_lista_strings (b, 0) l).1 ≡ size_of_list_of_strings_to_serialize l
unfolding serializar_lista_strings serializar_int size_of_list_of_strings_to_serialize
serializar_lista-size b l = serializar_valores-fin l _ 4 ∙ fin-agregar_tamanios l 4
