-- ===== src/Buffer/Find.antt =====
-- The search in the hash table, and a block that it finds.
use txos.Base.{
  ℕ, ◌+◌, ◌%◌, ◌<◌, ◌≡◌, ◌≢◌, refl, ap, ◌∙◌, true, false, ◌&&◌, List, [], ◌∷◌, Option, none, some,
  ok, arith, elem, ◌==◌, if◌then◌else◌, Bool-cases, inl, inr, ==_iff, ==_refl,
}
use txos.Stdlib.{word}
use txos.NodeList.Sequence.{without, elem-without, distinct-without, without_absent}
use txos.Buffer.{Buffer, Cache, hash, find_block, get_from_hash_table, take_found, getblk}
use txos.Buffer.Valid.{IsValid, hashed, changed, changed-IsValid}

-- whether a buffer is that of a block
abbrev pub IsFor : Buffer → (dev_id block : ℕ) → Type 0
IsFor b dev_id block = (b.dev_id ≡ dev_id) × (b.block ≡ block)

find_block-some :
    (buffers : ℕ → Buffer) (dev_id block p : ℕ) (list : List ℕ)
    → find_block buffers dev_id block list ≡ some p
    → (elem p list ≡ true) × IsFor (buffers p) dev_id block
unfolding find_block
find_block-some buffers dev_id block p [] found = cc
find_block-some buffers dev_id block p (x ∷ list) found =
    elim (Bool-cases ((buffers x).dev_id == dev_id && (buffers x).block == block)) [
      | inl here ↦
          let e : some x ≡ some p = rw here at found in
          let e' : x ≡ p = cc in rw (← e') (ground arith)
      | inr there ↦
          let more = find_block-some buffers dev_id block p list (rw there at found) in
          (ground (arith, more), more.1)
    ]

find_block-none :
    (buffers : ℕ → Buffer) (dev_id block p : ℕ) (list : List ℕ)
    → find_block buffers dev_id block list ≡ none
    → elem p list ≡ true
    → (buffers p).dev_id ≡ dev_id
    → (buffers p).block ≢ block
unfolding find_block
find_block-none buffers dev_id block p [] missing at d e = cc
find_block-none buffers dev_id block p (x ∷ list) missing at d e =
    elim (Bool-cases ((buffers x).dev_id == dev_id && (buffers x).block == block)) [
      | inl here ↦ cc (rw here at missing)
      | inr there ↦ elim (Bool-cases (x == p)) [
        | inl same ↦
            let e' : x ≡ p = (==_iff x p).0 same in
            cc (rw (e', d, e, ==_refl dev_id, ==_refl block) at there)
        | inr other ↦
            find_block-none buffers dev_id block p list (rw there at missing) (rw other at at) d e
      ]
    ]

-- the buffer of a block, if the cache has one
abbrev pub lookup : Cache → (dev_id block : ℕ) → Option ℕ
lookup c dev_id block = find_block c.buffers dev_id block (c.hash_table (hash dev_id block))

pub lookup-some :
    (c : Cache) (dev_id block bf : ℕ)
    → lookup c dev_id block ≡ some bf
    → (hashed c bf ≡ true) × IsFor (c.buffers bf) dev_id block
lookup-some c dev_id block bf found =
    let (at, is) =
      find_block-some c.buffers dev_id block bf (c.hash_table (hash dev_id block)) found in
    (rw (is.0, is.1) at, is)

pub lookup-none :
    (c : Cache) (dev_id block p : ℕ)
    → lookup c dev_id block ≡ none
    → hashed c p ≡ true
    → (c.buffers p).dev_id ≡ dev_id
    → (c.buffers p).block ≢ block
lookup-none c dev_id block p missing at d e =
    find_block-none c.buffers dev_id block p (c.hash_table (hash dev_id block)) missing
      (rw (d, e) at at) d e

-- the cache after `getblk` of a block that it has in `bf`
abbrev pub taken : Cache → (bf : ℕ) → Cache
taken c bf =
    let b = c.buffers bf in
    changed c bf (record b { count = (b.count + 1) % word }) (without c.free_list bf)

unlisted :
    (c : Cache) (bf : ℕ)
    → (if elem bf c.free_list then record c { free_list = without c.free_list bf } else c)
      ≡ record c { free_list = without c.free_list bf }
unlisted c bf = elim (Bool-cases (elem bf c.free_list)) [
  | inl there ↦ rw there refl
  | inr gone ↦ rw (gone, without_absent c.free_list bf gone) refl
]

get_from_hash_table-some :
    (c : Cache) (dev_id block bf : ℕ)
    → lookup c dev_id block ≡ some bf
    → get_from_hash_table c dev_id block
      ≡ (some bf, record c { free_list = without c.free_list bf })
unfolding get_from_hash_table
get_from_hash_table-some c dev_id block bf found =
    rw (found, get_from_hash_table) (ap (λ x. (some bf, x)) (unlisted c bf))

pub get_from_hash_table-none :
    (c : Cache) (dev_id block : ℕ)
    → lookup c dev_id block ≡ none
    → get_from_hash_table c dev_id block ≡ (none, c)
unfolding get_from_hash_table
get_from_hash_table-none c dev_id block missing = rw (missing, get_from_hash_table) refl

pub getblk-taken :
    (rounds current : ℕ) (others : Cache → Cache) (c : Cache) (dev_id block bf : ℕ)
    → lookup c dev_id block ≡ some bf
    → getblk rounds current others c dev_id block ≡ ok (bf, taken c bf)
unfolding getblk take_found
getblk-taken rounds current others c dev_id block bf found =
    rw (get_from_hash_table-some c dev_id block bf found) refl

pub taken-IsValid :
    (c : Cache) (bf : ℕ) → IsValid c → (c.buffers bf).count + 1 < word → IsValid (taken c bf)
taken-IsValid c bf v room =
    let b = c.buffers bf in
    let b' = record b { count = (b.count + 1) % word } in
    let used : (b'.count == 0) ≡ false = ground arith in
    changed-IsValid c bf b' (without c.free_list bf) (refl, refl, refl) v
      (λ p.
        elem-without p c.free_list bf
        ∙ rw (v.free p) (elim (Bool-cases (bf == p)) [
          | inl here ↦ rw (here, used) (ground arith)
          | inr there ↦ rw there refl
        ]))
      (λ h zero. absurd (ground arith)) (distinct-without c.free_list bf v.once)
