-- ===== src/Inotify/Parsed.antt =====
-- Records as the kernel writes them, and what src/remote_sandbox/remote_agent/inotify.py reads of them.
use remote_sandbox_cli.Base.{
  ◌≡◌, ◌≢◌, refl, sym, ◌∙◌, ap, ℕ, zero, suc, ◌+◌, ◌-◌, ◌/◌, ◌%◌, ◌<◌, Bool, true, false, Option,
  none, some, List, [], ◌∷◌, ◌++◌, map, if◌then◌else◌, ◌==◌, ℕ_discrete, nat_eq, length, ltb, leb,
  All, arith, length-append, Option-cases, inl, inr,
}
use remote_sandbox_cli.Base.Result.{Result, ok, err, value_error, ◌>>=◌}
use remote_sandbox_cli.Base.Sets.{is_empty}
use remote_sandbox_cli.Manifest.{ℤ, pos, negsuc}
use remote_sandbox_cli.Inotify.{
  InotifyEvent, Header, word, words, then_word, signed, is_overflow, take, until_zero, unpack,
  event_at, record_tail, add_event, parse_from, parse_inotify_buffer,
}

abbrev pub word_onto : ℕ → List ℕ → List ℕ
word_onto n rest = n % 256 ∷ n / 256 % 256 ∷ n / 65536 % 256 ∷ n / 16777216 % 256 ∷ rest

abbrev pub unsigned : ℤ → ℕ
unsigned (pos n) = n
unsigned (negsuc n) = 4294967295 - n

abbrev pub zeros_onto : ℕ → List ℕ → List ℕ
zeros_onto zero rest = rest
zeros_onto (suc n) rest = 0 ∷ zeros_onto n rest

-- An event in front of other bytes, its name with as many zeros behind it.
abbrev pub record_onto : InotifyEvent × ℕ → List ℕ → List ℕ
record_onto (e, padding) rest = word_onto (unsigned e.watch_descriptor) (
    word_onto e.mask (
      word_onto e.cookie (word_onto (length e.name + padding) (e.name ++ zeros_onto padding rest))))

abbrev pub records_onto : List (InotifyEvent × ℕ) → List ℕ → List ℕ
records_onto [] rest = rest
records_onto (w ∷ ws) rest = record_onto w (records_onto ws rest)

abbrev pub IsSigned : ℤ → Type 0
IsSigned (pos n) = n < 2147483648
IsSigned (negsuc n) = n < 2147483648

-- The fields fit their words, no byte of the name is zero, and the flag says what the mask says.
abbrev pub IsWritten : InotifyEvent × ℕ → Type 0
IsWritten (e, padding) =
    IsSigned e.watch_descriptor
    × (e.mask < 4294967296)
    × (e.cookie < 4294967296)
    × (length e.name + padding < 4294967296)
    × All (λ b. b ≢ 0) e.name
    × (e.overflow ≡ is_overflow e.mask)

word_lem :
    (n : ℕ)
    → n < 4294967296
    → word (n % 256) (n / 256 % 256) (n / 65536 % 256) (n / 16777216 % 256) ≡ n
word_lem n h = omega arith

signed-unsigned : (i : ℤ) → IsSigned i → signed (unsigned i) ≡ i
signed-unsigned (pos n) h = ground arith
signed-unsigned (negsuc n) h = rw (large n h) (ap negsuc (twice n h))
  where
    large : (n : ℕ) → n < 2147483648 → ltb (4294967295 - n) 2147483648 ≡ false
    large n h = ground arith

    twice : (n : ℕ) → n < 2147483648 → 4294967295 - (4294967295 - n) ≡ n
    twice n h = omega arith

unsigned_bound : (i : ℤ) → IsSigned i → unsigned i < 4294967296
unsigned_bound (pos n) h = omega arith
unsigned_bound (negsuc n) h = omega arith

plus_suc : (a b : ℕ) → a + suc b ≡ suc (a + b)
plus_suc a b = omega arith

suc_plus : (a b : ℕ) → suc a + b ≡ suc (a + b)
suc_plus a b = omega arith

not_zero : (b : ℕ) → b ≢ 0 → (b == 0) ≡ false
not_zero b h = ground arith

length-zeros_onto : (n : ℕ) (rest : List ℕ) → length (zeros_onto n rest) ≡ n + length rest
length-zeros_onto zero rest = omega arith
length-zeros_onto (suc n) rest = omega (arith, length-zeros_onto n rest)

name_lem :
    (name : List ℕ) (padding : ℕ) (rest : List ℕ)
    → All (λ b. b ≢ 0) name
    → until_zero (take (length name + padding) (name ++ zeros_onto padding rest)) ≡ name
unfolding ℕ_discrete
name_lem [] zero [] h = refl
name_lem [] zero (b ∷ rest) h = refl
name_lem [] (suc padding) rest h = rw (plus_suc 0 padding) refl
name_lem (b ∷ name) padding rest (hb, h) =
    rw (suc_plus (length name) padding, name_lem name padding rest h, not_zero b hb) refl

skip : (n : ℕ) (xs rest : List ℕ) → n ≡ length xs → parse_from n (xs ++ rest) ≡ parse_from 0 rest
unfolding parse_from
skip n [] rest h = rw h refl
skip n (x ∷ xs) rest h = rw h (skip (length xs) xs rest refl)

zeros_onto-append : (n : ℕ) (rest : List ℕ) → zeros_onto n rest ≡ zeros_onto n [] ++ rest
zeros_onto-append zero rest = refl
zeros_onto-append (suc n) rest = ap (λ x. 0 ∷ x) (zeros_onto-append n rest)

-- What is read of the record.
abbrev header_of : InotifyEvent × ℕ → Header
header_of (e, padding) = record {
  descriptor = unsigned e.watch_descriptor;
  mask = e.mask;
  cookie = e.cookie;
  name_length = length e.name + padding;
}

abbrev name_onto : InotifyEvent × ℕ → List ℕ → List ℕ
name_onto (e, padding) rest = e.name ++ zeros_onto padding rest

unpack-record_onto :
    (w : InotifyEvent × ℕ) (rest : List ℕ)
    → IsWritten w
    → unpack (record_onto w rest) ≡ some (header_of w, name_onto w rest)
unfolding unpack
unpack-record_onto (e, padding) rest (hd, hm, hc, hn, _, _) =
    rw
      (
        word_lem (unsigned e.watch_descriptor) (unsigned_bound e.watch_descriptor hd),
        word_lem e.mask hm,
        word_lem e.cookie hc,
        word_lem (length e.name + padding) hn,
      )
      refl

event_lem :
    (w : InotifyEvent × ℕ) (rest : List ℕ)
    → IsWritten w
    → event_at (header_of w) (name_onto w rest) ≡ w.0
event_lem (e, padding) rest (hd, hm, hc, hn, ha, ho) =
    rw (signed-unsigned e.watch_descriptor hd, name_lem e.name padding rest ha, sym ho) refl

parse_from-unpack :
    (b : ℕ) (bytes : List ℕ)
    → parse_from 0 (b ∷ bytes)
      ≡ add_event (unpack (b ∷ bytes)) (parse_from (record_tail (unpack (b ∷ bytes))) bytes)
unfolding parse_from
parse_from-unpack b bytes = refl

name-append :
    (name : List ℕ) (padding : ℕ) (rest : List ℕ)
    → name ++ zeros_onto padding rest ≡ (name ++ zeros_onto padding []) ++ rest
name-append [] padding rest = zeros_onto-append padding rest
name-append (b ∷ name) padding rest = ap (λ x. b ∷ x) (name-append name padding rest)

-- What follows the first byte of a record.
abbrev behind : InotifyEvent × ℕ → List ℕ → List ℕ
behind (e, padding) name =
    let d = unsigned e.watch_descriptor in
    d / 256 % 256
    ∷ d / 65536 % 256
    ∷ d / 16777216 % 256
    ∷ word_onto e.mask (word_onto e.cookie (word_onto (length e.name + padding) name))

behind-skip :
    (w : InotifyEvent × ℕ) (rest : List ℕ)
    → parse_from (15 + (length w.0.name + w.1)) (behind w (name_onto w rest)) ≡ parse_from 0 rest
behind-skip (e, padding) rest =
    ap (λ name. parse_from (15 + (length e.name + padding)) (behind (e, padding) name))
      (name-append e.name padding rest)
    ∙ skip (15 + (length e.name + padding)) (behind (e, padding) (e.name ++ zeros_onto padding []))
        rest
        (omega (arith, length-append e.name (zeros_onto padding []), length-zeros_onto padding []))

parse_record :
    (w : InotifyEvent × ℕ) (rest : List ℕ)
    → IsWritten w
    → parse_from 0 (record_onto w rest)
      ≡ add_event (some (header_of w, name_onto w rest)) (parse_from 0 rest)
parse_record w rest h =
    parse_from-unpack _ (behind w (name_onto w rest))
    ∙ ap (λ found. add_event found (parse_from (record_tail found) (behind w (name_onto w rest))))
        (unpack-record_onto w rest h)
    ∙ ap (add_event (some (header_of w, name_onto w rest))) (behind-skip w rest)

add_event_lem :
    (w : InotifyEvent × ℕ) (rest : List ℕ) (more : Result (List InotifyEvent))
    → IsWritten w
    → add_event (some (header_of w, name_onto w rest)) more ≡ (more >>= λ events. ok (w.0 ∷ events))
add_event_lem w rest more h = rw (enough w rest, event_lem w rest h) refl
  where
    enough :
        (w : InotifyEvent × ℕ) (rest : List ℕ)
        → leb (length w.0.name + w.1) (length (name_onto w rest)) ≡ true
    enough (e, padding) rest =
        ground
          (arith, length-append e.name (zeros_onto padding rest), length-zeros_onto padding rest)

some_injective : {A : Type 0} (a b : A) → some a ≡ some b → a ≡ b
some_injective a b h = cc

words-length :
    (bytes : List ℕ) (n : ℕ) (rest : List ℕ)
    → words bytes ≡ some (n, rest)
    → length bytes ≡ 4 + length rest
words-length [] n rest h = cc
words-length (a ∷ []) n rest h = cc
words-length (a ∷ b ∷ []) n rest h = cc
words-length (a ∷ b ∷ c ∷ []) n rest h = cc
words-length (a ∷ b ∷ c ∷ d ∷ more) n rest h =
    let same : more ≡ rest =
      ap (λ (x : ℕ × List ℕ). x.1) (some_injective (word a b c d, more) (n, rest) h) in
    omega (arith, ap length same)

then_word-some :
    {A : Type 0} (bytes : List ℕ) (f : ℕ → List ℕ → Option A) (a : A)
    → then_word (words bytes) f ≡ some a
    → (n : ℕ) × (rest : List ℕ) × (length bytes ≡ 4 + length rest) × (f n rest ≡ some a)
then_word-some bytes f a h = elim (Option-cases (words bytes)) [
  | inl k ↦ cc (h, k)
  | inr (found, k) ↦
      (found.0, found.1, words-length bytes found.0 found.1 k, sym (ap (λ o. then_word o f) k) ∙ h)
]

unpack-length :
    (bytes : List ℕ) (x : Header × List ℕ) → unpack bytes ≡ some x → length bytes ≡ 16 + length x.1
unfolding unpack
unpack-length bytes x h =
    let (descriptor, bytes₁, l₁, h₁) = then_word-some bytes _ x h in
    let (mask, bytes₂, l₂, h₂) = then_word-some bytes₁ _ x h₁ in
    let (cookie, bytes₃, l₃, h₃) = then_word-some bytes₂ _ x h₂ in
    let (name_length, bytes₄, l₄, h₄) = then_word-some bytes₃ _ x h₃ in
    let same : length bytes₄ ≡ length x.1 =
      ap (λ (y : Header × List ℕ). length y.1) (some_injective _ x h₄) in
    omega (arith, l₁, l₂, l₃, l₄, same)

unpack-none : (bytes : List ℕ) → length bytes < 16 → unpack bytes ≡ none
unpack-none bytes short = elim (Option-cases (unpack bytes)) [
  | inl k ↦ k
  | inr (x, k) ↦ absurd (omega (arith, unpack-length bytes x k))
]

parse_tail :
    (b : ℕ) (bytes : List ℕ) → length (b ∷ bytes) < 16 → parse_from 0 (b ∷ bytes) ≡ err value_error
parse_tail b bytes short = parse_from-unpack b bytes ∙ rw (unpack-none (b ∷ bytes) short) refl

nothing : parse_from 0 [] ≡ ok []
unfolding parse_from
nothing = refl

-- From records as the kernel writes them, with fewer than sixteen bytes behind them, the events are
-- read back as they are, when nothing is behind them; a rest that is no whole record is an error.
pub parse_inotify_buffer-records_onto :
    (ws : List (InotifyEvent × ℕ)) (rest : List ℕ)
    → All IsWritten ws
    → length rest < 16
    → parse_inotify_buffer (records_onto ws rest)
      ≡ (if is_empty rest then ok (map (λ (e, padding). e) ws) else err value_error)
unfolding parse_inotify_buffer
parse_inotify_buffer-records_onto [] [] h short = nothing
parse_inotify_buffer-records_onto [] (b ∷ rest) h short = parse_tail b rest short
parse_inotify_buffer-records_onto (w ∷ ws) rest (hw, h) short =
    parse_record w (records_onto ws rest) hw
    ∙ add_event_lem w (records_onto ws rest) _ hw
    ∙ ap (λ m. m >>= λ events. ok (w.0 ∷ events))
        (parse_inotify_buffer-records_onto ws rest h short)
    ∙ either w (map (λ (e, padding). e) ws) (is_empty rest)
  where
    either :
        (w : InotifyEvent × ℕ) (events : List InotifyEvent) (b : Bool)
        → ((if b then ok events else err value_error) >>= λ events. ok (w.0 ∷ events))
          ≡ (if b then ok (w.0 ∷ events) else err value_error)
    either w events true = refl
    either w events false = refl
