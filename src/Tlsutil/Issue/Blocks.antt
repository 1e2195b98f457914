-- ===== src/Tlsutil/Issue/Blocks.antt =====
-- The loops over the blocks of a PEM text end, with the answer of the first block that has one.
use proxmox_eventbus.Prelude.{
  ℕ, zero, suc, ◌<◌, ◌≡◌, refl, List, [], ◌∷◌, Option, none, some, Bytes, length, arith,
  Option-cases, inl, inr,
}
use proxmox_eventbus.Prelude.Result.{Result, err}
use proxmox_eventbus.Tlsutil.Issue.{
  Crypto, PemError, Pick, scan_blocks, pick_cert, pick_key, load_pem_cert, load_pem_key,
}

-- The answer of one block, or of those behind it.
behind_block :
    {A : Type 0} (o : Option (Result PemError A)) {u v : Result PemError A}
    → u ≡ v
    → (elim o [ some r ↦ r | none ↦ u ]) ≡ (elim o [ some r ↦ r | none ↦ v ])
behind_block none h = h
behind_block (some r) h = refl

module _ (x : Crypto) where
  -- The text holds these blocks, each with its type and bytes.
  pub data Decodes : Bytes → List (Bytes × Bytes) → Type 0 where
    end : {b : Bytes} → x.decode b ≡ none → Decodes b []
    next :
        {b rest type bytes : Bytes} {blocks : List (Bytes × Bytes)}
        → x.decode b ≡ some (type, bytes, rest)
        → Decodes rest blocks
        → Decodes b ((type, bytes) ∷ blocks)

  -- The answer of the first block that has one.
  unfoldable pub first_answer : {A : Type 0} → Pick A → List (Bytes × Bytes) → Result PemError A
  first_answer pick [] = err PemError.no_block
  first_answer pick ((type, bytes) ∷ blocks) = elim (pick type bytes) [
    | some r ↦ r
    | none ↦ first_answer pick blocks
  ]

  -- What `pem.Decode` leaves is shorter than what it is given.
  abbrev pub Shrinks : Type 0
  Shrinks =
      (b type bytes rest : Bytes) → x.decode b ≡ some (type, bytes, rest) → length rest < length b

  -- Every text holds a finite list of blocks, of which there are no more than bytes.
  text-Decodes :
      (fuel : ℕ) (b : Bytes)
      → Shrinks
      → length b < fuel
      → (blocks : List (Bytes × Bytes)) × Decodes b blocks × (length blocks < fuel)
  text-Decodes zero b h lt = absurd (omega arith)
  text-Decodes (suc fuel) b h lt = elim (Option-cases (x.decode b)) [
    | inl e ↦ ([], end e, omega arith)
    | inr ((type, bytes, rest), e) ↦
        let (blocks, d, few) = text-Decodes fuel rest h (omega (arith, h b type bytes rest e)) in
        ((type, bytes) ∷ blocks, next e d, omega arith)
  ]

  scan_blocks-first_answer :
      {A : Type 0} (pick : Pick A) (fuel : ℕ) {b : Bytes} {blocks : List (Bytes × Bytes)}
      → Decodes b blocks
      → length blocks < fuel
      → scan_blocks x pick fuel b ≡ first_answer pick blocks
  unfolding scan_blocks first_answer
  scan_blocks-first_answer pick zero d lt = absurd (omega arith)
  scan_blocks-first_answer pick (suc fuel) (end e) lt = rw (e, scan_blocks)
  scan_blocks-first_answer pick (suc fuel) (next {type = type} {bytes = bytes} e d) lt =
      rw (e, scan_blocks)
        (behind_block (pick type bytes) (scan_blocks-first_answer pick fuel d (omega arith)))

  -- Where `pem.Decode` leaves less than it is given, the loops of `loadPEMCert` and `loadPEMKey`
  -- end on every text, without running out of fuel: the text holds a finite list of blocks, and
  -- what each of the two returns is what the first block that has an answer gives, or the error
  -- that there is none.
  pub load_pem-first_answer :
      (b : Bytes)
      → Shrinks
      → (blocks : List (Bytes × Bytes)) × Decodes b blocks
        × (load_pem_cert x (some b) ≡ first_answer (pick_cert x) blocks)
        × (load_pem_key x (some b) ≡ first_answer (pick_key x) blocks)
  unfolding load_pem_cert load_pem_key
  load_pem-first_answer b h =
      let (blocks, d, few) = text-Decodes (suc (length b)) b h (omega arith) in
      (
        blocks,
        d,
        scan_blocks-first_answer (pick_cert x) (suc (length b)) d few,
        scan_blocks-first_answer (pick_key x) (suc (length b)) d few,
      )
