-- ===== src/Arena/Init.antt =====
-- `arena_init`: the heap that the kernel starts with.
use txos.Base.{ℕ, zero, suc, ◌+◌, ◌*◌, ◌^◌, ◌/◌, ◌-◌, ◌<◌, ◌≤◌, ◌≡◌, refl, [], false, arith}
use txos.Stdlib.{word}
use txos.Arena.{
  Heap, arena_desc_count, min_block_size, page_bytes, sizeof_arena, init_descriptors, arena_init,
}
use txos.Arena.Valid.{IsValid, is_free}

-- what `arena_init` makes of the descriptor `d`
pub descriptor_lem :
    (h : Heap) (d : ℕ)
    → d < arena_desc_count
    → (arena_init h).descriptors d ≡ record {
      block_size = min_block_size * 2 ^ d;
      total_block = (page_bytes - sizeof_arena) / (min_block_size * 2 ^ d);
      free_list = [];
    }
unfolding arena_init init_descriptors
descriptor_lem h zero less = refl
descriptor_lem h (suc zero) less = refl
descriptor_lem h (suc (suc zero)) less = refl
descriptor_lem h (suc (suc (suc zero))) less = refl
descriptor_lem h (suc (suc (suc (suc zero)))) less = refl
descriptor_lem h (suc (suc (suc (suc (suc zero))))) less = refl
descriptor_lem h (suc (suc (suc (suc (suc (suc zero)))))) less = refl
descriptor_lem h (suc (suc (suc (suc (suc (suc (suc d))))))) less = absurd (omega arith)

-- The sizes from 16 to 1024 fit a page each.
sizes :
    (d : ℕ)
    → d < arena_desc_count
    → (0 < min_block_size * 2 ^ d)
      × (0 < (page_bytes - sizeof_arena) / (min_block_size * 2 ^ d))
      × ((page_bytes - sizeof_arena) / (min_block_size * 2 ^ d) < word)
      × (sizeof_arena
            + (page_bytes - sizeof_arena) / (min_block_size * 2 ^ d) * (min_block_size * 2 ^ d)
          ≤ page_bytes)
sizes zero less = (omega arith, omega arith, omega arith, omega arith)
sizes (suc zero) less = (omega arith, omega arith, omega arith, omega arith)
sizes (suc (suc zero)) less = (omega arith, omega arith, omega arith, omega arith)
sizes (suc (suc (suc zero))) less = (omega arith, omega arith, omega arith, omega arith)
sizes (suc (suc (suc (suc zero)))) less = (omega arith, omega arith, omega arith, omega arith)
sizes (suc (suc (suc (suc (suc zero))))) less = (omega arith, omega arith, omega arith, omega arith)
sizes (suc (suc (suc (suc (suc (suc zero)))))) less =
    (omega arith, omega arith, omega arith, omega arith)
sizes (suc (suc (suc (suc (suc (suc (suc d))))))) less = absurd (omega arith)

arenas_same : (h : Heap) → (arena_init h).arenas ≡ h.arenas
unfolding arena_init
arenas_same h = refl

-- After `arena_init` nothing is free and the invariant holds.
pub arena_init-IsValid :
    (h : Heap) → ((arena : ℕ) → (h.arenas arena).count < word) → IsValid (arena_init h)
arena_init-IsValid h small =
    let none_free : (d p : ℕ) → d < arena_desc_count → is_free (arena_init h) d p ≡ false =
      λ d p less. rw (descriptor_lem h d less) refl in
    record {
      positive = λ d less. rw (descriptor_lem h d less) (sizes d less).0;
      some_block = λ d less. rw (descriptor_lem h d less) (sizes d less).1;
      small_total = λ d less. rw (descriptor_lem h d less) (sizes d less).2;
      fits = λ d less. rw (descriptor_lem h d less) (sizes d less).3;
      once = λ d less. rw (descriptor_lem h d less) refl;
      blocks = λ d p less at. absurd (cc (none_free d p less));
      small_count = λ arena. rw (arenas_same h) (small arena);
      counted = λ d p less at. absurd (cc (none_free d p less));
    }
