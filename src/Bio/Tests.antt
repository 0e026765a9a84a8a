-- ===== src/Bio/Tests.antt =====
-- A cache of two buffers, and the theorems at it.
use operating_systems_cs.Prelude.{
  ℕ, ◌≡◌, ◌⊎◌, refl, Bool, true, false, [], ◌∷◌, arith, ◌==◌, if◌then◌else◌,
}
use operating_systems_cs.Bio.{Buf, Cache, no_dev, got, bget, bread, Disk}
use operating_systems_cs.Bio.Cache.{Unique, bget-Unique}
use operating_systems_cs.Bio.Coherence.{Coherent, bread-Coherent}

abbrev block_seven : Buf
block_seven = record {
  slot = 0;
  dev = 1;
  blockno = 7;
  busy = false;
  valid = true;
  dirty = false;
  bytes = 70;
}

abbrev spare : Buf
spare = record {
  slot = 1;
  dev = no_dev;
  blockno = 0;
  busy = false;
  valid = false;
  dirty = false;
  bytes = 0;
}

abbrev cache : Cache
cache = block_seven ∷ spare ∷ []

abbrev disk : Disk
disk dev blockno = if blockno == 7 then 70 else 5

abbrev nine : Buf
nine = record spare { dev = 1; blockno = 9; busy = true }

bget_recycles : bget 1 9 cache ≡ got (block_seven ∷ nine ∷ []) nine
unfolding bget
bget_recycles = refl

bread_reads :
    bread true disk 1 9 cache
    ≡ got
        (block_seven ∷ record nine { valid = true; bytes = 5 } ∷ [])
        (record nine { valid = true; bytes = 5 })
unfolding bread
bread_reads = refl

cache-Unique : Unique cache
cache-Unique = record { once = λ dev blockno ne. ground arith }

bget-Unique_example :
    Unique (block_seven ∷ nine ∷ [])
    × ◌≡◌ {A = ℕ} 2 2
    × (nine.busy ≡ true)
    × (nine.dev ≡ 1)
    × (nine.blockno ≡ 9)
bget-Unique_example =
    bget-Unique 1 9 cache (block_seven ∷ nine ∷ []) nine (omega arith) cache-Unique bget_recycles

clean_nine :
    (c1 : Cache) (b1 : Buf) → bget 1 9 cache ≡ got c1 b1 → b1.valid ≡ false → b1.dirty ≡ false
clean_nine c1 b1 e v =
    let e' : got (block_seven ∷ nine ∷ []) nine ≡ got c1 b1 = rw bget_recycles at e in
    let same : nine ≡ b1 = cc in rw (← same)

bread-Coherent_example :
    Coherent disk (block_seven ∷ record nine { valid = true; bytes = 5 } ∷ [])
    × ◌≡◌ {A = Bool} true true
    × ((◌≡◌ {A = Bool} false true) ⊎ (◌≡◌ {A = ℕ} 5 5))
bread-Coherent_example =
    bread-Coherent disk 1 9 cache (block_seven ∷ record nine { valid = true; bytes = 5 } ∷ [])
      (record nine { valid = true; bytes = 5 }) ((λ v n. refl), ((λ v n. cc), tt)) clean_nine
      bread_reads

abbrev held_seven : Buf
held_seven = record block_seven { busy = true }
