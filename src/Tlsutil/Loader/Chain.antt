-- ===== src/Tlsutil/Loader/Chain.antt =====
-- `verifyChain` does not read what a certificate may be used for.
use proxmox_eventbus.Prelude.{
  ◌≡◌, refl, ap, ap₂, Bool, List, [], ◌∷◌, Option, none, some, Bytes, if◌then◌else◌,
}
use proxmox_eventbus.Tlsutil.Loader.{
  Certificate, ChainError, any_use, intermediates, verify_leaf, verify_chain,
}

-- Two readings of one text that are both refused, or agree but for the uses that they name.
abbrev pub AgreeButUses :
    {Body : Type 0} → Option (Certificate Body) → Option (Certificate Body) → Type 0
AgreeButUses none none = Unit
AgreeButUses none (some d) = ⊥
AgreeButUses (some c) none = ⊥
AgreeButUses (some c) (some d) = c.body ≡ d.body

any_use-eq : {Body : Type 0} (c d : Certificate Body) → c.body ≡ d.body → any_use c ≡ any_use d
unfolding any_use
any_use-eq c d h = ap (λ b. record { body = b; ext_key_usage = []; unknown_ext_key_usage = [] }) h

module _ {Body : Type 0} (parse parse' : Bytes → Option (Certificate Body)) where
  intermediates_step :
      (raws : List Bytes) (c d : Option (Certificate Body))
      → AgreeButUses c d
      → intermediates parse raws ≡ intermediates parse' raws
      → (elim c [ none ↦ intermediates parse raws | some x ↦ any_use x ∷ intermediates parse raws ])
        ≡ (elim d [
          | none ↦ intermediates parse' raws
          | some x ↦ any_use x ∷ intermediates parse' raws
        ])
  intermediates_step raws none none h e = e
  intermediates_step raws none (some d) h e = absurd h
  intermediates_step raws (some c) none h e = absurd h
  intermediates_step raws (some c) (some d) h e = ap₂ (◌∷◌) (any_use-eq c d h) e

  intermediates_agree :
      (raws : List Bytes)
      → ((raw : Bytes) → AgreeButUses (parse raw) (parse' raw))
      → intermediates parse raws ≡ intermediates parse' raws
  unfolding intermediates
  intermediates_agree [] h = refl
  intermediates_agree (raw ∷ raws) h =
      intermediates_step raws (parse raw) (parse' raw) (h raw) (intermediates_agree raws h)

module _ {Pool Body : Type 0} (parse parse' : Bytes → Option (Certificate Body))
    (verify : Pool → List (Certificate Body) → Certificate Body → Bool) where
  leaf_agree :
      (roots : Pool) (raws : List Bytes) (c d : Option (Certificate Body))
      → AgreeButUses c d
      → intermediates parse raws ≡ intermediates parse' raws
      → verify_leaf parse verify roots raws c ≡ verify_leaf parse' verify roots raws d
  unfolding verify_leaf
  leaf_agree roots raws none none h e = refl
  leaf_agree roots raws none (some d) h e = absurd h
  leaf_agree roots raws (some c) none h e = absurd h
  leaf_agree roots raws (some c) (some d) h e =
      ap₂ (λ is x. if verify roots is x then none else some ChainError.not_verified) e
        (any_use-eq c d h)

  -- Let two certificates of each text agree but for the uses that they name, known or unknown. Then
  -- for every pool and chain `verifyChain` gives the same error for both, or accepts both, whatever
  -- `Verify` of crypto/x509 makes of the uses.
  verify_chain_ignores_uses :
      (roots : Pool) (raws : List Bytes)
      → ((raw : Bytes) → AgreeButUses (parse raw) (parse' raw))
      → verify_chain parse verify roots raws ≡ verify_chain parse' verify roots raws
  unfolding verify_chain
  verify_chain_ignores_uses roots [] h = refl
  verify_chain_ignores_uses roots (raw ∷ raws) h =
      leaf_agree roots raws (parse raw) (parse' raw) (h raw)
        (intermediates_agree parse parse' raws h)
