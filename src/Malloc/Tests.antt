-- ===== src/Malloc/Tests.antt =====
-- A heap with one page of free descriptors, and one with a page of objects.
use neantis.Prelude.{◌≡◌, refl, arith, some, [], ◌∷◌, ◌==◌, if◌then◌else◌, update}
use neantis.Mm.{scan, get_free_page}
use neantis.Malloc.{zero_desc, Heap, ok, bucket_sizes, bucket_for, new_bucket, malloc}
use neantis.Malloc.Free.{free_s}
use neantis.Malloc.Carve.{objects, spaced, new_bucket-objects}
use neantis.Malloc.Return.{free_s-malloc}

-- Only the lowest page is free, and there is one descriptor.
abbrev one_page : Heap
one_page = record {
  memory = record {
    high_memory = 0x1000000;
    mem_map = λ i. if i == 3839 then 0 else 100;
    phys = λ a. 0;
  };
  chain = λ i. 0;
  desc = λ b. zero_desc;
  free_bucket_desc = 0x200000;
  link = λ a. 0;
}

-- Bucket 7 has a page of two objects, and one of them is in use.
abbrev half_used : Heap
half_used = record one_page {
  chain = λ i. if i == 7 then 0x200000 else 0;
  desc = λ b.
      if b == 0x200000
      then record { page = 0x300000; next = 0; freeptr = 0x300800; refcnt = 1; bucket_size = 2048 }
      else zero_desc;
}

new_bucket-objects_example :
    (h' : Heap) × (new_bucket 7 2048 one_page ≡ ok 0x200000 h')
    × (h'.chain ≡ update one_page.chain 7 0x200000)
    × ((h'.desc 0x200000).next ≡ 0)
    × ((h'.desc 0x200000).page ≡ 0xfff000)
    × (objects 3 h'.link (h'.desc 0x200000).freeptr ≡ 0xfff000 ∷ 0xfff800 ∷ [])
unfolding get_free_page scan spaced
new_bucket-objects_example =
    new_bucket-objects 7 2048 one_page (omega arith) (omega arith) (omega arith) (omega arith)

bucket_for_2000 : bucket_for bucket_sizes 2000 0 ≡ some (7, 2048)
unfolding bucket_for
bucket_for_2000 = refl

free_s-malloc_example :
    (h' : Heap) × (malloc 5 2000 half_used ≡ ok 0x300800 h')
    × (free_s 5 0x300800 2000 h' ≡ ok tt half_used)
free_s-malloc_example =
    free_s-malloc 5 2000 7 2048 half_used (omega arith) bucket_for_2000 (omega arith) (omega arith)
      refl (omega arith) (omega arith)
