-- ===== src/Idempotency/Digest.antt =====
-- src/gateway/idempotency.rs: what the digests of a context are taken of. SHA-256 is not modelled:
-- a digest is known by the bytes that are given to it. A text is its bytes.
use llmshim.Common.{
  ℕ, zero, suc, ◌+◌, ◌*◌, ◌/◌, ◌%◌, ◌<◌, ◌≡◌, ◌∙◌, refl, ap, List, [], ◌∷◌, ◌++◌, length, All,
  arith,
}

-- to_be_bytes: the last `count` bytes of a number, in front of `rest`.
abbrev pub be_bytes : (count n : ℕ) → (rest : List ℕ) → List ℕ
be_bytes zero n rest = rest
be_bytes (suc count) n rest = be_bytes count (n / 256) (n % 256 ∷ rest)

unfoldable pub framed : List (List ℕ) → List ℕ
framed [] = []
framed (part ∷ parts) = be_bytes 8 (length part) (part ++ framed parts)

-- The bytes that the hasher is given.
unfoldable pub digest_parts : (domain : List ℕ) → List (List ℕ) → List ℕ
unfolding framed
digest_parts domain parts = domain ++ framed parts

-- b"llmshim-gateway-idempotency-owner-v1", and so on
abbrev pub owner_domain : List ℕ
owner_domain =
    108 ∷ 108 ∷ 109 ∷ 115 ∷ 104 ∷ 105 ∷ 109 ∷ 45 ∷ 103 ∷ 97 ∷ 116 ∷ 101 ∷ 119 ∷ 97 ∷ 121 ∷ 45 ∷ 105
    ∷ 100 ∷ 101 ∷ 109 ∷ 112 ∷ 111 ∷ 116 ∷ 101 ∷ 110 ∷ 99 ∷ 121 ∷ 45 ∷ 111 ∷ 119 ∷ 110 ∷ 101 ∷ 114
    ∷ 45 ∷ 118 ∷ 49 ∷ []

abbrev pub request_domain : List ℕ
request_domain =
    108 ∷ 108 ∷ 109 ∷ 115 ∷ 104 ∷ 105 ∷ 109 ∷ 45 ∷ 103 ∷ 97 ∷ 116 ∷ 101 ∷ 119 ∷ 97 ∷ 121 ∷ 45 ∷ 105
    ∷ 100 ∷ 101 ∷ 109 ∷ 112 ∷ 111 ∷ 116 ∷ 101 ∷ 110 ∷ 99 ∷ 121 ∷ 45 ∷ 114 ∷ 101 ∷ 113 ∷ 117 ∷ 101
    ∷ 115 ∷ 116 ∷ 45 ∷ 118 ∷ 49 ∷ []

abbrev pub generic_domain : List ℕ
generic_domain =
    108 ∷ 108 ∷ 109 ∷ 115 ∷ 104 ∷ 105 ∷ 109 ∷ 45 ∷ 103 ∷ 97 ∷ 116 ∷ 101 ∷ 119 ∷ 97 ∷ 121 ∷ 45 ∷ 105
    ∷ 100 ∷ 101 ∷ 109 ∷ 112 ∷ 111 ∷ 116 ∷ 101 ∷ 110 ∷ 99 ∷ 121 ∷ 45 ∷ 103 ∷ 101 ∷ 110 ∷ 101 ∷ 114
    ∷ 105 ∷ 99 ∷ 45 ∷ 118 ∷ 49 ∷ []

unfoldable pub storage_key : (tenant credential route client_key : List ℕ) → List ℕ
unfolding digest_parts
storage_key tenant credential route client_key =
    digest_parts owner_domain (tenant ∷ credential ∷ route ∷ client_key ∷ [])

unfoldable pub request_fingerprint : (route request : List ℕ) → List ℕ
unfolding digest_parts
request_fingerprint route request = digest_parts request_domain (route ∷ request ∷ [])

unfoldable pub generic_storage_key : (client_key : List ℕ) → List ℕ
unfolding digest_parts
generic_storage_key client_key = digest_parts generic_domain (client_key ∷ [])

abbrev power : ℕ → ℕ
power zero = 1
power (suc count) = 256 * power count

abbrev head_of : List ℕ → ℕ
head_of [] = 0
head_of (a ∷ rest) = a

abbrev first : List ℕ → List (List ℕ) → List ℕ
first other [] = other
first other (part ∷ parts) = part

abbrev tail_of : {A : Type 0} → List A → List A
tail_of [] = []
tail_of (a ∷ rest) = rest

length-be_bytes :
    (count n : ℕ) (rest : List ℕ) → length (be_bytes count n rest) ≡ count + length rest
length-be_bytes zero n rest = omega arith
length-be_bytes (suc count) n rest = omega (arith, length-be_bytes count (n / 256) (n % 256 ∷ rest))

be_bytes_inj :
    (count m n : ℕ) (r s : List ℕ)
    → m < power count
    → n < power count
    → be_bytes count m r ≡ be_bytes count n s
    → (m ≡ n) × (r ≡ s)
be_bytes_inj zero m n r s h k e = (omega (arith, h, k), e)
be_bytes_inj (suc count) m n r s h k e =
    let (high, rest) =
      be_bytes_inj count (m / 256) (n / 256) (m % 256 ∷ r) (n % 256 ∷ s) (omega (arith, h))
        (omega (arith, k)) e in
    (omega (arith, high, ap head_of rest), ap tail_of rest)

append_inj : (p q r s : List ℕ) → length p ≡ length q → p ++ r ≡ q ++ s → (p ≡ q) × (r ≡ s)
append_inj [] [] r s h e = (refl, e)
append_inj [] (b ∷ q) r s h e = absurd (omega (arith, h))
append_inj (a ∷ p) [] r s h e = absurd (omega (arith, h))
append_inj (a ∷ p) (b ∷ q) r s h e =
    let (same, rest) = append_inj p q r s (omega (arith, h)) (ap tail_of e) in
    (ap (λ c. c ∷ p) (ap head_of e) ∙ ap (λ t. b ∷ t) same, rest)

-- A length that a `u64` holds.
abbrev pub IsShort : List ℕ → Type 0
IsShort part = length part < 18446744073709551616

framed_inj :
    (ps qs : List (List ℕ)) → All IsShort ps → All IsShort qs → framed ps ≡ framed qs → ps ≡ qs
unfolding framed
framed_inj [] [] h k e = refl
framed_inj [] (q ∷ qs) h k e =
    absurd (omega (arith, ap length e, length-be_bytes 8 (length q) (q ++ framed qs)))
framed_inj (p ∷ ps) [] h k e =
    absurd (omega (arith, ap length e, length-be_bytes 8 (length p) (p ++ framed ps)))
framed_inj (p ∷ ps) (q ∷ qs) h k e =
    let (long, rest) =
      be_bytes_inj 8 (length p) (length q) (p ++ framed ps) (q ++ framed qs) h.0 k.0 e in
    let (same, others) = append_inj p q (framed ps) (framed qs) long rest in
    ap (λ x. x ∷ ps) same ∙ ap (λ xs. q ∷ xs) (framed_inj ps qs h.1 k.1 others)

-- Within a domain, the bytes that a digest is taken of tell the parts apart: two lists of parts,
-- of any number, give the same bytes only if they are the same list, where the length of each
-- part fits a u64.
pub digest_parts_inj :
    (domain : List ℕ) (ps qs : List (List ℕ))
    → All IsShort ps
    → All IsShort qs
    → digest_parts domain ps ≡ digest_parts domain qs
    → ps ≡ qs
unfolding digest_parts
digest_parts_inj domain ps qs h k e =
    framed_inj ps qs h k (append_inj domain domain (framed ps) (framed qs) refl e).1

-- The bytes that a storage key is the digest of tell its owner apart: for texts whose lengths
-- fit a u64, they are the same for two owners only if the tenant, the credential, the route and
-- the key of the client are each the same. SHA-256 is not in this statement.
pub storage_key_inj :
    (t c r k t' c' r' k' : List ℕ)
    → All IsShort (t ∷ c ∷ r ∷ k ∷ [])
    → All IsShort (t' ∷ c' ∷ r' ∷ k' ∷ [])
    → storage_key t c r k ≡ storage_key t' c' r' k'
    → ((t ≡ t') × (c ≡ c')) × ((r ≡ r') × (k ≡ k'))
unfolding storage_key
storage_key_inj t c r k t' c' r' k' h h' e =
    let same = digest_parts_inj owner_domain (t ∷ c ∷ r ∷ k ∷ []) (t' ∷ c' ∷ r' ∷ k' ∷ []) h h' e in
    (
      (ap (first []) same, ap (λ l. first [] (tail_of l)) same),
      (
        ap (λ l. first [] (tail_of (tail_of l))) same,
        ap (λ l. first [] (tail_of (tail_of (tail_of l)))) same,
      ),
    )
