-- ===== src/MemoryContainer/Tests.antt =====
-- A container with one buffer of 128 bytes at 4096, of which 16 bytes are in use.
use iclaustron.Base.{◌≡◌, refl, inl, true, false, some, [], ◌∷◌, arith}
use iclaustron.MemoryContainer.{Container, alloc, reset, create_container}
use iclaustron.MemoryContainer.Alloc.{Apart, alloc-Apart}

abbrev used : Container
used = record {
  current_buf = 4112;
  buf_array = 4096 ∷ 0 ∷ 0 ∷ 0 ∷ 0 ∷ 0 ∷ 0 ∷ 0 ∷ [];
  total_size = 16;
  max_size = 0;
  base_size = 128;
  current_buf_inx = 0;
  current_free_len = 112;
  first_buf_inx = 0;
}

-- The container is what two requests for 5 bytes leave of a new one.
used-made :
    create_container 1 0 true true 4096 false false
    ≡ some (record used { current_buf = 4096; total_size = 0; current_free_len = 128 })
unfolding create_container
used-made = refl

-- A request for more than is free gets a buffer of its own, which is put before the first; a reset frees it.
large-alloc : (alloc used 200 true 8192).1.buf_array ≡ 8192 ∷ 4096 ∷ 0 ∷ 0 ∷ 0 ∷ 0 ∷ 0 ∷ 0 ∷ []
unfolding alloc
large-alloc = refl

large-reset : (reset (alloc used 200 true 8192).1 true).0 ≡ 8192 ∷ []
unfolding alloc reset
large-reset = refl

alloc-Apart_example :
    let (p, mc') = alloc used 20 true 8192 in
    Apart 4096 16 p 20
    × Apart 4096 16 mc'.current_buf mc'.current_free_len
    × Apart p 20 mc'.current_buf mc'.current_free_len
unfolding alloc
alloc-Apart_example =
    alloc-Apart used 20 true 8192 4096 16 (omega arith) (inl (omega arith)) (inl (omega arith))
      (inl (omega arith)) (omega arith)
