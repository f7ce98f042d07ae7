-- ===== src/Fs/Tests/Buffers.antt =====
-- Superblocks and buffers: the theorems at a concrete state.
use neantis.Prelude.{ℕ, ◌+◌, ◌<◌, ◌≡◌, refl, ◌≢◌, arith, update, [], ◌∷◌}
use mathlib.Core.List.{cons≢nil}
use mathlib.Core.List.Permᴰ.{refl as same_order}
use neantis.Prelude.Chains.{cycle, link, step}
use neantis.Fs.State.{Ptr, null, slot, nr_hash, Kernel}
use neantis.Fs.Run.{ok}
use neantis.Fs.Super.{get_super}
use neantis.Fs.Super.Find.{get_super-total}
use neantis.Fs.Cache.{assign, get_hash_table}
use neantis.Fs.Cache.Hash.{IsOf, get_hash_table-IsOf}
use neantis.Fs.Buffer.{claim, bread, getblk}
use neantis.Fs.Buffer.Read.{bread-uptodate}
use neantis.Fs.Buffer.Take.{getblk-IsOf}
use neantis.Fs.Buffer.Init.{buffer_init}
use neantis.Fs.Buffer.Begin.{slots, buffer_init-IsFreeRing}
use neantis.Fs.Cache.FreeRing.{IsFreeRing}
use neantis.Fs.Run.Does.{Does}
use neantis.Fs.Buffer.Moves.{claim-IsFreeRing}
use neantis.Fs.Buffer.Order.{IsFreeOf}
use neantis.Fs.Buffer.Calls.{gets, reads, no_call, next_call, Calls-IsFreeOf}
use neantis.Fs.Tests.{quiet, buffers, small, state}

finds_super : get_super 1 small ≡ ok 2 small
unfolding get_super
finds_super = refl

unlocked : (s : Ptr) → (small.super_block s).s_lock ≡ 0
unlocked s = ground arith

get_super-total_example :
    (t : Ptr) × (get_super 1 small ≡ ok t small) × ((small.super_block t).s_dev ≡ 1)
get_super-total_example =
    get_super-total 1 small 2 (omega arith) unlocked (omega arith) (omega arith) (omega arith) refl

-- Buffer 1 with another count.
abbrev counted : ℕ → Kernel
counted c = record small { buffer = update buffers 1 (record (buffers 1) { b_count = c }) }

finds_buffer : get_hash_table 1 2 small ≡ ok 1 (counted 4)
unfolding get_hash_table
finds_buffer = refl

get_hash_table-IsOf_example : IsOf 1 2 1 (counted 4) × (((counted 4).buffer 1).b_lock ≡ 0)
get_hash_table-IsOf_example = get_hash_table-IsOf 1 2 small (counted 4) 1 finds_buffer (omega arith)

reads_buffer : bread 1 2 small ≡ ok 1 (counted 4)
unfolding bread getblk get_hash_table
reads_buffer = refl

bread-uptodate_example : ((counted 4).buffer 1).b_uptodate ≢ 0
bread-uptodate_example = bread-uptodate 1 2 small (counted 4) 1 reads_buffer (omega arith)

-- Block 5 is in no buffer: buffer 2 is taken for it.
takes_buffer : getblk 1 5 small ≡ ok 2 (state (getblk 1 5 small))
unfolding getblk assign
takes_buffer = refl

getblk-IsOf_example :
    let k = state (getblk 1 5 small) in
    (2 ≢ null) × ((k.buffer 2).b_dev ≡ 1) × ((k.buffer 2).b_blocknr ≡ 5)
getblk-IsOf_example = getblk-IsOf 1 5 small (state (getblk 1 5 small)) 2 (omega arith) takes_buffer

two_free : IsFreeRing (1 ∷ 2 ∷ []) small
two_free = record {
  circle =
      cycle (step {a = 1} {x = 2} {c = 1} refl refl (link {a = 2} {c = 1} refl refl))
        ((λ e. omega (arith, e), tt), (tt, tt));
  start = refl;
  some = (λ e. omega (arith, e), (λ e. omega (arith, e), tt));
}

-- Buffer 1 is taken over: it goes behind buffer 2.
claim-IsFreeRing_example : Does (λ _. IsFreeRing (2 ∷ 1 ∷ [])) (claim 1 5 1 small)
claim-IsFreeRing_example = claim-IsFreeRing 1 5 1 [] (2 ∷ []) small cons≢nil two_free

-- Block 2 is read, and then buffer 2 is taken for block 5.
takes_next : getblk 1 5 (counted 4) ≡ ok 2 (state (getblk 1 5 (counted 4)))
unfolding getblk assign
takes_next = refl

Calls-IsFreeOf_example : IsFreeOf (1 ∷ 2 ∷ []) (state (getblk 1 5 (counted 4)))
Calls-IsFreeOf_example =
    Calls-IsFreeOf (omega arith) (λ k ring. ring) (λ rw b k ring. ring)
      (next_call (reads 1 2 reads_buffer) (next_call (gets 1 5 takes_next) no_call))
      (1 ∷ 2 ∷ [], same_order (1 ∷ 2 ∷ []), two_free)

-- Three blocks fit between the heads at 0x1000 and 0x2000.
buffer_init-IsFreeRing_example :
    (n : ℕ) × (k' : Kernel) × (buffer_init 0x1000 0x2000 small ≡ ok tt k')
    × (0 < n)
    × (k'.nr_buffers ≡ 2 + n)
    × IsFreeRing (slots 0 n) k'
    × ((j : ℕ) → j < n → ((k'.buffer (slot j)).b_count ≡ 0) × ((k'.buffer (slot j)).b_lock ≡ 0))
    × ((h : ℕ) → h < nr_hash → k'.hash_table h ≡ null)
buffer_init-IsFreeRing_example =
    buffer_init-IsFreeRing 0x1000 0x2000 small (omega arith) (omega arith)
