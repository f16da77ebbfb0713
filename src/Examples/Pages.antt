-- ===== src/Examples/Pages.antt =====
-- The theorems on memory, the key code queue, the descriptors and the queues of kernel/queue.c.
use magical_os.Base.{
  ℕ, suc, ◌+◌, ◌-◌, ◌^◌, ◌<◌, ◌≤◌, ◌≡◌, ◌↔◌, ◌⊎◌, refl, true, false, some, none, arith, List, [],
  ◌∷◌, ◌++◌, ltb, if◌then◌else◌, set, replicate, length-replicate,
}
use magical_os.Memory.{max_heap_pages, page_size, mem_alloc, Pool, kmalloc}
use magical_os.Memory.Alloc.{InUse, page_addr, Allocated, mem_alloc_lem}
use magical_os.Memory.Kmalloc.{IsPool, kmalloc_lem, kmalloc_wraps}
use magical_os.Paging.{Entries, init_table, init_directory}
use magical_os.Paging.Laws.{mapped, Reaches, init_table_lem, heap_reached}
use magical_os.KeyQueue.{KeyQueue, enqueue, dequeue}
use magical_os.KeyQueue.Refine.{HasSize, contents, enqueue_refines, dequeue_refines}
use magical_os.Descriptors.{Segment}

abbrev all_free : List ℕ
all_free = replicate max_heap_pages 0

mem_alloc_lem_example :
    ((mem_alloc 0 all_free ≡ (0, all_free)) × ((k : ℕ) → k < max_heap_pages → InUse all_free k))
    ⊎ ((i : ℕ) × Allocated all_free i (mem_alloc 0 all_free))
mem_alloc_lem_example = mem_alloc_lem 0 all_free (length-replicate {A = ℕ} max_heap_pages 0)

abbrev pool : Pool
pool = record { total = 100; top = 0x100000; table = [] }

pool-IsPool : IsPool pool
pool-IsPool = record { page = omega arith; room = omega arith; used = omega arith }

kmalloc_lem_example :
    (100 + 28 ≤ page_size
      → (kmalloc 0 28 pool ≡ some (0x100000 + 100, record pool { total = 100 + 28 }))
        × IsPool (record pool { total = 100 + 28 }))
    × (page_size < 100 + 28 → kmalloc 0 28 pool ≡ none)
kmalloc_lem_example = kmalloc_lem 0 28 pool pool-IsPool (omega arith)

kmalloc_wraps_example :
    (kmalloc 0 0xfffffff0 pool
      ≡ some (0x100000 + 100, record pool { total = 100 + 0xfffffff0 - 2 ^ 32 }))
    × (100 + 0xfffffff0 - 2 ^ 32 < 100)
kmalloc_wraps_example = kmalloc_wraps 0 0xfffffff0 pool pool-IsPool (omega arith) (omega arith)

abbrev no_entries : Entries
no_entries i = 0

init_table_lem_example :
    init_table no_entries 0xb8 ≡ (if ltb 0xb8 0x40000 then mapped 0xb8 else no_entries 0xb8)
init_table_lem_example = init_table_lem no_entries 0xb8

heap_reached_example : Reaches (init_directory no_entries) (page_addr 1000) ↔ (1000 < 768)
heap_reached_example = heap_reached no_entries 1000 (omega arith)

-- The queue holds the code 30, at the last index.
abbrev keys : KeyQueue
keys = record {
  buf = set (replicate 256 0) 255 30;
  start = 255;
  end = 0;
  is_full = false;
  error = false;
}

abbrev keys_size : ℕ
keys_size = 1

keys-HasSize : HasSize keys keys_size
keys-HasSize = record {
  storage = refl;
  bound = omega arith;
  start = omega arith;
  end = omega arith;
  full = λ h. cc;
  not_full = λ h. omega arith;
}

enqueue_refines_example :
    (1 < 256
      → HasSize (enqueue keys 31) 2
        × (contents (enqueue keys 31) 2 ≡ contents keys 1 ++ (31 ∷ []))
        × ((enqueue keys 31).error ≡ false))
    × (keys_size ≡ 256 → enqueue keys 31 ≡ record keys { error = true })
enqueue_refines_example = enqueue_refines keys 1 31 keys-HasSize

dequeue_refines_example :
    (keys_size ≡ 0 → dequeue keys ≡ (0, record keys { error = true }))
    × ((m : ℕ)
        → keys_size ≡ suc m
        → HasSize (dequeue keys).1 m
          × (contents keys 1 ≡ (dequeue keys).0 ∷ contents (dequeue keys).1 m)
          × ((dequeue keys).1.error ≡ false))
dequeue_refines_example = dequeue_refines keys 1 keys-HasSize

abbrev no_segments : ℕ → Segment
no_segments i = record {
  limit0 = 0;
  limit1 = 0;
  base0 = 0;
  base1 = 0;
  base2 = 0;
  dpl = 0;
  kind = 0;
  present = 0;
}
