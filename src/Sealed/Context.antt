-- ===== src/Sealed/Context.antt =====
-- `SealedContext` of util/sealedchain.go: what signatures are made over.
use native.Mathlib.Nat.{pow-suc}
use revoked.Prelude.{
  length-append, ℕ, zero, suc, ◌+◌, ◌*◌, ◌/◌, ◌%◌, ◌^◌, ◌<◌, ◌≡◌, refl, ap, sym, ◌∙◌, List, [], ◌∷◌,
  ◌++◌, length, All, arith, append_assoc,
}

abbrev pub Bytes : Type 0
Bytes = List ℕ

-- The parts that a context has; an int is taken modulo 2 ^ 64, as `uint64(p)` does. A string and a
-- byte slice are written alike.
pub data Part : Type 0 where
  text : Bytes → Part
  int : ℕ → Part

-- `n` big-endian bytes of a number, `AppendUint32` and `AppendUint64`
unfoldable pub big_endian : ℕ → ℕ → Bytes
big_endian zero v = []
big_endian (suc n) v = big_endian n (v / 256) ++ (v % 256) ∷ []

-- `addBytes`
unfoldable pub add_bytes : Bytes → Bytes
unfolding big_endian
add_bytes b = big_endian 4 (length b % 2 ^ 32) ++ b

unfoldable pub add_part : Part → Bytes
unfolding add_bytes
add_part (text b) = add_bytes b
add_part (int v) = big_endian 8 (v % 2 ^ 64)

unfoldable pub add_parts : List Part → Bytes
unfolding add_part
add_parts [] = []
add_parts (p ∷ ps) = add_part p ++ add_parts ps

-- `SealedContext`
unfoldable pub sealed_context : Bytes → List Part → Bytes
unfolding add_parts
sealed_context label parts = add_bytes label ++ add_parts parts

-- What fits the length prefixes and the eight bytes.
abbrev pub Fits : Part → Type 0
Fits (text b) = length b < 2 ^ 32
Fits (int v) = v < 2 ^ 64

-- The same kinds of parts in the same order.
abbrev pub SameShape : List Part → List Part → Type 0
SameShape [] [] = Unit
SameShape (text _ ∷ ps) (text _ ∷ qs) = SameShape ps qs
SameShape (int _ ∷ ps) (int _ ∷ qs) = SameShape ps qs
SameShape _ _ = ⊥

-- Lists that begin with parts of one length.
pub append-cancel :
    (xs ys us vs : Bytes) → length xs ≡ length ys → xs ++ us ≡ ys ++ vs → (xs ≡ ys) × (us ≡ vs)
append-cancel [] [] us vs h e = (refl, e)
append-cancel [] (y ∷ ys) us vs h e = absurd (omega arith)
append-cancel (x ∷ xs) [] us vs h e = absurd (omega arith)
append-cancel (x ∷ xs) (y ∷ ys) us vs h e =
    let (same, rest) = append-cancel xs ys us vs (omega arith) (cc) in (cc, rest)

length-big_endian : (n v : ℕ) → length (big_endian n v) ≡ n
unfolding big_endian
length-big_endian zero v = refl
length-big_endian (suc n) v =
    length-append (big_endian n (v / 256)) ((v % 256) ∷ [])
    ∙ omega (arith, length-big_endian n (v / 256))

last-injective : (a b : ℕ) → ◌≡◌ {A = Bytes} (a ∷ []) (b ∷ []) → a ≡ b
last-injective a b e = cc

big_endian-injective :
    (n v w : ℕ) → v < 256 ^ n → w < 256 ^ n → big_endian n v ≡ big_endian n w → v ≡ w
unfolding big_endian
big_endian-injective zero v w hv hw e = omega arith
big_endian-injective (suc n) v w hv hw e =
    let lengths = length-big_endian n (v / 256) ∙ sym (length-big_endian n (w / 256)) in
    let (high, low) =
      append-cancel (big_endian n (v / 256)) (big_endian n (w / 256)) ((v % 256) ∷ [])
        ((w % 256) ∷ []) lengths e in
    let up =
      big_endian-injective n (v / 256) (w / 256) (omega (arith, pow-suc 256 n))
        (omega (arith, pow-suc 256 n)) high in
    omega (arith, up, last-injective (v % 256) (w % 256) low)

-- What a length prefix precedes can be told from what follows.
add_bytes-cancel :
    (b c us vs : Bytes)
    → length b < 2 ^ 32
    → length c < 2 ^ 32
    → add_bytes b ++ us ≡ add_bytes c ++ vs
    → (b ≡ c) × (us ≡ vs)
unfolding add_bytes
add_bytes-cancel b c us vs hb hc e =
    let heads =
      length-big_endian 4 (length b % 2 ^ 32) ∙ sym (length-big_endian 4 (length c % 2 ^ 32)) in
    let flat =
      sym (append_assoc (big_endian 4 (length b % 2 ^ 32)) b us)
      ∙ e
      ∙ append_assoc (big_endian 4 (length c % 2 ^ 32)) c vs in
    let (prefix, rest) =
      append-cancel (big_endian 4 (length b % 2 ^ 32)) (big_endian 4 (length c % 2 ^ 32)) (b ++ us)
        (c ++ vs) heads flat in
    let same =
      big_endian-injective 4 (length b % 2 ^ 32) (length c % 2 ^ 32) (omega arith) (omega arith)
        prefix in
    append-cancel b c us vs (omega (arith, same)) rest

int-cancel :
    (v w : ℕ) (us vs : Bytes)
    → v < 2 ^ 64
    → w < 2 ^ 64
    → big_endian 8 (v % 2 ^ 64) ++ us ≡ big_endian 8 (w % 2 ^ 64) ++ vs
    → (v ≡ w) × (us ≡ vs)
int-cancel v w us vs hv hw e =
    let heads = length-big_endian 8 (v % 2 ^ 64) ∙ sym (length-big_endian 8 (w % 2 ^ 64)) in
    let (prefix, rest) =
      append-cancel (big_endian 8 (v % 2 ^ 64)) (big_endian 8 (w % 2 ^ 64)) us vs heads e in
    let same =
      big_endian-injective 8 (v % 2 ^ 64) (w % 2 ^ 64) (omega arith) (omega arith) prefix in
    (omega (arith, same), rest)

add_parts-injective :
    (ps qs : List Part)
    → SameShape ps qs
    → All Fits ps
    → All Fits qs
    → add_parts ps ≡ add_parts qs
    → ps ≡ qs
unfolding add_parts
add_parts-injective [] [] shape fp fq e = refl
add_parts-injective (text b ∷ ps) (text c ∷ qs) shape (hb, fp) (hc, fq) e =
    let (same, rest) = add_bytes-cancel b c (add_parts ps) (add_parts qs) hb hc e in
    let later = add_parts-injective ps qs shape fp fq rest in cc
add_parts-injective (int v ∷ ps) (int w ∷ qs) shape (hv, fp) (hw, fq) e =
    let (same, rest) = int-cancel v w (add_parts ps) (add_parts qs) hv hw e in
    let later = add_parts-injective ps qs shape fp fq rest in cc
add_parts-injective [] (_ ∷ _) shape fp fq e = absurd shape
add_parts-injective (text _ ∷ _) [] shape fp fq e = absurd shape
add_parts-injective (int _ ∷ _) [] shape fp fq e = absurd shape
add_parts-injective (text _ ∷ _) (int _ ∷ _) shape fp fq e = absurd shape
add_parts-injective (int _ ∷ _) (text _ ∷ _) shape fp fq e = absurd shape

-- Contexts that encode alike, with parts of the same kinds in the same order, have one label and
-- one list of parts, where lengths are below 2 ^ 32, and ints below 2 ^ 64.
pub sealed_context-injective :
    (label label' : Bytes) (ps qs : List Part)
    → length label < 2 ^ 32
    → length label' < 2 ^ 32
    → All Fits ps
    → All Fits qs
    → SameShape ps qs
    → sealed_context label ps ≡ sealed_context label' qs
    → (label ≡ label') × (ps ≡ qs)
unfolding sealed_context
sealed_context-injective label label' ps qs hl hl' fp fq shape e =
    let (same, rest) = add_bytes-cancel label label' (add_parts ps) (add_parts qs) hl hl' e in
    (same, add_parts-injective ps qs shape fp fq rest)

int-text : (v : ℕ) → v < 2 ^ 32 → add_part (int (4 * 2 ^ 32 + v)) ≡ add_part (text (big_endian 4 v))
unfolding add_part
int-text v h = ground arith

-- Contexts of different shapes can encode alike: an int reads as the length and the bytes of a
-- text of four bytes.
pub sealed_context_collision :
    (label : Bytes) (v : ℕ) (rest : List Part)
    → v < 2 ^ 32
    → sealed_context label (int (4 * 2 ^ 32 + v) ∷ rest)
      ≡ sealed_context label (text (big_endian 4 v) ∷ rest)
unfolding sealed_context
sealed_context_collision label v rest h =
    ap (λ (l : Bytes). add_bytes label ++ (l ++ add_parts rest)) (int-text v h)
