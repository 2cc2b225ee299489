-- ===== src/Relay/Certificate/Readers.antt =====
-- The steps of parse_relay_certificate (pytusk/core/relay_upload/relay_certify.py): what each returns, and that each
-- raises a RelayCertificateParseError only.
use pytusk.Prelude.{
  ℕ, zero, suc, ◌+◌, ◌<◌, ◌≡◌, refl, ap, ◌∙◌, subst, arith, Bool, true, false, none, some, List, [],
  ◌∷◌, length, contains, sorted, IsAscending, IsDistinct, All, get_elem?, Bool-cases, inl, inr,
  contains-sorted, sorted-IsAscending,
}
use pytusk.Prelude.Int.{ℤ, pos, negsuc}
use pytusk.Prelude.Bytes.{Bytes}
use pytusk.Errors.{
  Error, Result, ok, err, ◌>>=◌, >>=-eq-ok, raise_if, ok-injective, relay_certificate_parse,
}
use pytusk.Committee.Json.{JsonValue, int, list, JsonList, nil, cons}
use pytusk.Committee.Members.{WalrusCommitteeMember, member_at}
use pytusk.Certification.Bitmap.{pack_signers_bitmap, unpack_signers_bitmap}
use pytusk.Certification.Bitmap.RoundTrip.{pack-within, unpack-pack_ascending}
use pytusk.Certification.Certificate.{is_empty}
use pytusk.Relay.Certificate.{
  as_parse_error, signer_ints, read_signers, read_message, bytes_of, distinct, naturals,
  PackedSigners, pack_signers, weight_at,
}

contains-distinct : (q : ℕ) (ps : List ℕ) → contains q (distinct ps) ≡ contains q ps
unfolding distinct
contains-distinct q [] = refl
contains-distinct q (p ∷ ps) = elim (Bool-cases (contains p (distinct ps))) [
  | inl y ↦ rw y (ground (arith, contains-distinct q ps))
  | inr n ↦ rw n (ground (arith, contains-distinct q ps))
]

distinct-IsDistinct : (ps : List ℕ) → IsDistinct (distinct ps)
unfolding distinct
distinct-IsDistinct [] = tt
distinct-IsDistinct (p ∷ ps) = elim (Bool-cases (contains p (distinct ps))) [
  | inl y ↦ rw y (distinct-IsDistinct ps)
  | inr n ↦ rw n (n, distinct-IsDistinct ps)
]

-- The shards of the members at some positions.
abbrev pub shards_at : List WalrusCommitteeMember → List ℕ → ℕ
shards_at members [] = 0
shards_at members (p ∷ ps) = elim (get_elem? members p) [
  | none ↦ shards_at members ps
  | some m ↦ length m.shard_indices + shards_at members ps
]

-- A list of integers in JSON.
abbrev pub json_ints : List ℤ → JsonList
json_ints [] = nil
json_ints (n ∷ ns) = cons (int n) (json_ints ns)

abbrev pub ints : List ℕ → List ℤ
ints [] = []
ints (p ∷ ps) = pos p ∷ ints ps

naturals-ints : (raw : List ℤ) (ps : List ℕ) → naturals raw ≡ ok ps → raw ≡ ints ps
unfolding naturals
naturals-ints [] ps e = ap ints (ok-injective _ _ e)
naturals-ints (pos p ∷ rest) ps e =
    let (qs, q, same) = >>=-eq-ok (naturals rest) _ e in
    ap (◌∷◌ (pos p)) (naturals-ints rest qs q) ∙ ap ints (ok-injective _ _ same)
naturals-ints (negsuc p ∷ rest) ps e = cc

signer_ints-json :
    (entries : JsonList) (ns : List ℤ) → signer_ints entries ≡ ok ns → entries ≡ json_ints ns
unfolding signer_ints
signer_ints-json nil ns e = ap json_ints (ok-injective _ _ e)
signer_ints-json (cons (int n) rest) ns e =
    let (ms, m, same) = >>=-eq-ok (signer_ints rest) _ e in
    ap (cons (int n)) (signer_ints-json rest ms m) ∙ ap json_ints (ok-injective _ _ same)
signer_ints-json (cons _ rest) ns e = cc

get_elem?_within :
    {A : Type 0} (xs : List A) (i : ℕ) → i < length xs → (x : A) × (get_elem? xs i ≡ some x)
get_elem?_within [] i h = absurd (omega arith)
get_elem?_within (x ∷ xs) zero h = (x, refl)
get_elem?_within (x ∷ xs) (suc i) h = get_elem?_within xs i (omega arith)

pub weight_at-shards :
    (members : List WalrusCommitteeMember) (ps : List ℕ)
    → All (λ p. p < length members) ps
    → weight_at members ps ≡ ok (shards_at members ps)
unfolding weight_at member_at
weight_at-shards members [] h = refl
weight_at-shards members (p ∷ ps) (low, h) =
    let (m, e) = get_elem?_within members p low in
    rw (e, shards_at, member_at) (rw (weight_at-shards members ps h) refl)

-- Whatever is raised is a RelayCertificateParseError.
abbrev pub IsParse : {A : Type 0} → Result A → Type 0
IsParse {A} r = (e : Error) → r ≡ err e → e ≡ relay_certificate_parse

pub as_parse_error-IsParse : {A : Type 0} (r : Result A) → IsParse (as_parse_error r)
as_parse_error-IsParse (ok value) e h = cc
as_parse_error-IsParse (err f) e h = cc

pub raise_if-IsParse : (b : Bool) → IsParse (raise_if b relay_certificate_parse)
raise_if-IsParse true e h = cc
raise_if-IsParse false e h = cc

err-injective :
    {B : Type 0} (raised e : Error) → ◌≡◌ {A = Result B} (err raised) (err e) → raised ≡ e
err-injective raised e h = cc

pub >>=-IsParse :
    {A B : Type 0} (first : Result A) (next : A → Result B)
    → IsParse first
    → ((value : A) → IsParse (next value))
    → IsParse (first >>= next)
>>=-IsParse (ok value) next f n = n value
>>=-IsParse (err raised) next f n = λ e h. f e (ap err (err-injective raised e h))

signer_ints-IsParse : (entries : JsonList) → IsParse (signer_ints entries)
unfolding signer_ints
signer_ints-IsParse nil = λ e h. cc
signer_ints-IsParse (cons (int n) rest) =
    >>=-IsParse (signer_ints rest) _ (signer_ints-IsParse rest) (λ ns e h. cc)
signer_ints-IsParse (cons _ rest) = λ e h. cc

pub read_signers-IsParse : (value : JsonValue) → IsParse (read_signers value)
unfolding read_signers
read_signers-IsParse (list entries) =
    >>=-IsParse (signer_ints entries) _ (signer_ints-IsParse entries) (λ ns.
      >>=-IsParse (raise_if (is_empty ns) relay_certificate_parse) _
        (raise_if-IsParse (is_empty ns)) (λ u e h. cc))
read_signers-IsParse _ = λ e h. cc

pub read_message-IsParse : (value : JsonValue) → IsParse (read_message value)
unfolding read_message
read_message-IsParse (list entries) = as_parse_error-IsParse (bytes_of entries)
read_message-IsParse _ = λ e h. cc

pub read_signers-json :
    (value : JsonValue) (ns : List ℤ) → read_signers value ≡ ok ns → value ≡ list (json_ints ns)
unfolding read_signers
read_signers-json (list entries) ns e =
    let (ms, m, e1) = >>=-eq-ok (signer_ints entries) _ e in
    let (u, _, same) = >>=-eq-ok (raise_if (is_empty ms) relay_certificate_parse) _ e1 in
    ap list (signer_ints-json entries ms m) ∙ ap (λ ks. list (json_ints ks)) (ok-injective _ _ same)
read_signers-json _ ns e = cc

pub as_parse_error-ok :
    {A : Type 0} (r : Result A) (value : A) → as_parse_error r ≡ ok value → r ≡ ok value
as_parse_error-ok (ok a) value e = e
as_parse_error-ok (err f) value e = cc

-- The positions and the bitmap of some signers of a committee.
pub record IsPacked (signers : List ℕ) (size : ℕ) (positions : List ℕ) (bitmap : Bytes)
    : Type 0 where
  pub ascending : IsAscending 0 positions
  pub within : All (λ p. p < size) positions
  pub same : (q : ℕ) → contains q positions ≡ contains q signers
  pub unpacked : unpack_signers_bitmap bitmap size ≡ ok positions

pub pack_signers-IsPacked :
    (raw : List ℤ) (size : ℕ) (packed : PackedSigners)
    → pack_signers raw size ≡ ok packed
    → (signers : List ℕ) × (raw ≡ ints signers)
      × IsPacked signers size packed.positions packed.bitmap
unfolding pack_signers
pack_signers-IsPacked raw size packed e =
    let (ps, p, e1) = >>=-eq-ok (naturals raw) _ e in
    let (bitmap, b, e2) = >>=-eq-ok (pack_signers_bitmap (sorted (distinct ps)) size) _ e1 in
    let positions = sorted (distinct ps) in
    let here = ok-injective _ _ e2 in
    let ascending = sorted-IsAscending (distinct ps) (distinct-IsDistinct ps) in
    let within = pack-within positions bitmap size b in
    let round = unpack-pack_ascending positions size ascending within in
    (
      ps,
      naturals-ints raw ps p,
      subst (λ r. IsPacked ps size r.positions r.bitmap) here
          (record {
            ascending = ascending;
            within = within;
            same = λ q. contains-sorted q (distinct ps) ∙ contains-distinct q ps;
            unpacked = rw b at round;
          }),
    )
