-- ===== src/As2/Id.antt =====
-- packages/as2/src/id.js: minting ids. The bytes of randomBytes() and the time are arguments, and
-- none is the error for a missing argument.
use qu_v.Prelude.{
  ℕ, zero, suc, ◌+◌, ◌*◌, ◌/◌, ◌%◌, ◌-◌, ◌^◌, Text, codes, Option, none, some, List, [], ◌∷◌, ◌++◌,
  reverse, length, ◌==◌, ◌||◌, leb, get_elem?, if◌then◌else◌,
}

abbrev pub crockford_alphabet : Text
crockford_alphabet = codes "0123456789ABCDEFGHJKMNPQRSTVWXYZ"

-- CROCKFORD_ALPHABET[index], which is in range for an index below 32.
unfoldable pub letter : ℕ → Text
letter i = elim (get_elem? crockford_alphabet i) [ none ↦ codes "undefined" | some c ↦ c ∷ [] ]

-- The letters that the inner while loop adds, and the bit count that it leaves, on fuel.
unfoldable pub emit_letters : ℕ → ℕ → ℕ → Text × ℕ
unfolding letter
emit_letters zero bits count = ([], count)
emit_letters (suc fuel) bits count =
    let (rest, left) = emit_letters fuel bits (count - 5) in
    if leb 5 count then (letter (bits / 2 ^ (count - 5) % 32) ++ rest, left) else ([], count)

-- The loop over the bytes, and the letter for the bits that are left; a byte adds at most two letters.
unfoldable pub encode_from : ℕ → ℕ → List ℕ → Text
unfolding emit_letters letter
encode_from bits count [] = if count == 0 then [] else letter (bits * 2 ^ (5 - count) % 32)
encode_from bits count (byte ∷ bytes) =
    let next = bits * 256 + byte in
    let (letters, left) = emit_letters 3 next (count + 8) in letters ++ encode_from next left bytes

-- encodeBase32(bytes)
unfoldable pub encode_base32 : List ℕ → Text
unfolding encode_from
encode_base32 bytes = encode_from 0 0 bytes

-- timeBytes.writeUIntBE(now % 2 ** 48, 0, 6)
unfoldable pub time_bytes : ℕ → List ℕ
time_bytes now =
    let t = now % 2 ^ 48 in
    (t / 2 ^ 40) % 256
    ∷ (t / 2 ^ 32) % 256
    ∷ (t / 2 ^ 24) % 256
    ∷ (t / 2 ^ 16) % 256
    ∷ (t / 2 ^ 8) % 256
    ∷ t % 256
    ∷ []

-- mintLocalId(now)
unfoldable pub mint_local_id : ℕ → List ℕ → Text
unfolding encode_base32 time_bytes
mint_local_id now random = encode_base32 (time_bytes now ++ random)

-- text.endsWith('/') ? text.slice(0, -1) : text, on the text in reverse
unfoldable pub drop_slash : Text → Text
drop_slash [] = []
drop_slash (c ∷ cs) = if c == b'/' then cs else c ∷ cs

-- `${base}/${collection}/${localId}`
unfoldable pub id_text : Text → Text → Text → Text
unfolding drop_slash
id_text actor_base collection local_id =
    reverse (drop_slash (reverse actor_base)) ++ b'/' ∷ (collection ++ b'/' ∷ local_id)

-- mintId({ actorBase, collection, localId })
unfoldable pub mint_id : Text → Text → Text → Option Text
unfolding id_text
mint_id actor_base collection local_id =
    if length actor_base == 0 || length collection == 0
    then none
    else some (id_text actor_base collection local_id)
