-- ===== src/Wire/Bytes.antt =====
-- Memory buffers, and the little-endian bytes of machine words.
use tp_sistemas_operativos.Base.{
  ℕ, zero, suc, ◌+◌, ◌*◌, ◌/◌, ◌%◌, ◌^◌, ◌≤◌, ◌<◌, ◌≡◌, refl, ap, ap₂, ◌⊎◌, sym, ◌∙◌, List, [], ◌∷◌,
  ◌++◌, arith, ◌==◌, if◌then◌else◌, length,
}
use native.Mathlib.Nat.{pow-suc}

-- A buffer: the byte at each place from its start.
abbrev pub Buffer : Type 0
Buffer = ℕ → ℕ

-- `memcpy(buffer + at, …)`, byte by byte.
unfoldable pub write_bytes : Buffer → ℕ → List ℕ → Buffer
write_bytes b at [] = b
write_bytes b at (x ∷ xs) = write_bytes (λ i. if i == at then x else b i) (at + 1) xs

-- `memcpy(…, buffer + at, n)`.
unfoldable pub read_bytes : Buffer → ℕ → ℕ → List ℕ
read_bytes b at zero = []
read_bytes b at (suc n) = b at ∷ read_bytes b (at + 1) n

-- The `n` bytes of a word in memory, and the word of given bytes.
unfoldable pub le_bytes : ℕ → ℕ → List ℕ
le_bytes zero v = []
le_bytes (suc n) v = (v % 256) ∷ le_bytes n (v / 256)

unfoldable pub of_le : List ℕ → ℕ
of_le [] = 0
of_le (x ∷ xs) = x + 256 * of_le xs

pub length-le_bytes : (n v : ℕ) → length (le_bytes n v) ≡ n
unfolding le_bytes
length-le_bytes zero v = refl
length-le_bytes (suc n) v = ap suc (length-le_bytes n (v / 256))

pub of_le-le_bytes : (n v : ℕ) → v < 256 ^ n → of_le (le_bytes n v) ≡ v
unfolding le_bytes of_le
of_le-le_bytes zero v h = omega arith
of_le-le_bytes (suc n) v h =
    omega (arith, of_le-le_bytes n (v / 256) (omega (arith, pow-suc 256 n, h)))

-- What a write leaves at a place depends on what was there alone.
pub write_bytes-igual :
    (xs : List ℕ) (b c : Buffer) (at i : ℕ)
    → b i ≡ c i
    → write_bytes b at xs i ≡ write_bytes c at xs i
unfolding write_bytes
write_bytes-igual [] b c at i h = h
write_bytes-igual (x ∷ xs) b c at i h =
    write_bytes-igual xs (λ j. if j == at then x else b j) (λ j. if j == at then x else c j)
      (at + 1) i (ap (λ v. if i == at then x else v) h)

igual_suc : (m n : ℕ) → suc m + n ≡ suc (m + n)
igual_suc m n = omega arith

pub read_bytes-append :
    (m n : ℕ) (b : Buffer) (at : ℕ)
    → read_bytes b at (m + n) ≡ read_bytes b at m ++ read_bytes b (at + m) n
unfolding read_bytes
read_bytes-append zero n b at = ap₂ (read_bytes b) (omega arith) (omega arith)
read_bytes-append (suc m) n b at =
    ap (read_bytes b at) (igual_suc m n)
    ∙ ap (λ l. b at ∷ l)
        (read_bytes-append m n b (at + 1)
          ∙ ap (λ a. read_bytes b (at + 1) m ++ read_bytes b a n) (omega arith))

-- A write changes nothing in front of it or behind it.
pub write_bytes-outside :
    (b : Buffer) (at : ℕ) (xs : List ℕ) (i : ℕ)
    → (i < at) ⊎ (at + length xs ≤ i)
    → write_bytes b at xs i ≡ b i
unfolding write_bytes
write_bytes-outside b at [] i h = refl
write_bytes-outside b at (x ∷ xs) i h =
    ground (arith, write_bytes-outside (λ j. if j == at then x else b j) (at + 1) xs i)

pub read_bytes-eq :
    (b c : Buffer) (at n : ℕ)
    → ((i : ℕ) → at ≤ i → i < at + n → b i ≡ c i)
    → read_bytes b at n ≡ read_bytes c at n
unfolding read_bytes
read_bytes-eq b c at zero h = refl
read_bytes-eq b c at (suc n) h =
    ap₂ ◌∷◌ (h at (omega arith) (omega arith))
      (read_bytes-eq b c (at + 1) n (λ i p q. h i (omega arith) (omega arith)))

-- What is read from a place that a write spares is what was there.
pub read_bytes-outside :
    (b : Buffer) (at n to : ℕ) (xs : List ℕ)
    → (at + n ≤ to) ⊎ (to + length xs ≤ at)
    → read_bytes (write_bytes b to xs) at n ≡ read_bytes b at n
read_bytes-outside b at n to xs h =
    read_bytes-eq (write_bytes b to xs) b at n
      (λ i p q. write_bytes-outside b to xs i (omega arith))

write_bytes-first : (b : Buffer) (at x : ℕ) (xs : List ℕ) → write_bytes b at (x ∷ xs) at ≡ x
unfolding write_bytes
write_bytes-first b at x xs =
    ground (arith, write_bytes-outside (λ j. if j == at then x else b j) (at + 1) xs at)

-- What was written is read back.
pub read-write_bytes :
    (b : Buffer) (at : ℕ) (xs : List ℕ) → read_bytes (write_bytes b at xs) at (length xs) ≡ xs
unfolding read_bytes write_bytes
read-write_bytes b at [] = refl
read-write_bytes b at (x ∷ xs) =
    ap₂ ◌∷◌ (write_bytes-first b at x xs)
      (read-write_bytes (λ j. if j == at then x else b j) (at + 1) xs)

-- A word of `n` bytes that was written is read back.
pub read-write_le_bytes :
    (b : Buffer) (at n v : ℕ) → read_bytes (write_bytes b at (le_bytes n v)) at n ≡ le_bytes n v
read-write_le_bytes b at n v =
    ap (read_bytes (write_bytes b at (le_bytes n v)) at) (sym (length-le_bytes n v))
    ∙ read-write_bytes b at (le_bytes n v)

-- At `at` the buffer holds the bytes `xs`.
abbrev pub Holds : Buffer → ℕ → List ℕ → Type 0
Holds b at xs = read_bytes b at (length xs) ≡ xs

-- Two writes in a row are one.
pub write_bytes-append :
    (xs : List ℕ) (b : Buffer) (at : ℕ) (ys : List ℕ)
    → write_bytes (write_bytes b at xs) (at + length xs) ys ≡ write_bytes b at (xs ++ ys)
unfolding write_bytes
write_bytes-append [] b at ys = ap (λ k. write_bytes b k ys) (omega arith)
write_bytes-append (x ∷ xs) b at ys =
    ap (λ k. write_bytes (write_bytes (λ i. if i == at then x else b i) (at + 1) xs) k ys)
      (omega arith)
    ∙ write_bytes-append xs (λ i. if i == at then x else b i) (at + 1) ys

pub Holds-left : (xs ys : List ℕ) (b : Buffer) (at : ℕ) → Holds b at (xs ++ ys) → Holds b at xs
unfolding read_bytes
Holds-left [] ys b at h = refl
Holds-left (x ∷ xs) ys b at h =
    ap₂ ◌∷◌ (ground (arith, h)) (Holds-left xs ys b (at + 1) (ground (arith, h)))

pub Holds-right :
    (xs ys : List ℕ) (b : Buffer) (at : ℕ) → Holds b at (xs ++ ys) → Holds b (at + length xs) ys
unfolding read_bytes
Holds-right [] ys b at h = ap (λ k. read_bytes b k (length ys)) (omega arith) ∙ h
Holds-right (x ∷ xs) ys b at h =
    ap (λ k. read_bytes b k (length ys)) (omega arith)
    ∙ Holds-right xs ys b (at + 1) (ground (arith, h))

-- A word at `at`.
pub of_le-Holds :
    (b : Buffer) (at n v : ℕ)
    → v < 256 ^ n
    → Holds b at (le_bytes n v)
    → of_le (read_bytes b at n) ≡ v
of_le-Holds b at n v small h =
    ap of_le (ap (read_bytes b at) (sym (length-le_bytes n v)) ∙ h) ∙ of_le-le_bytes n v small
