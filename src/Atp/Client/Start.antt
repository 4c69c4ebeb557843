-- ===== src/Atp/Client/Start.antt =====
-- atp/client.go: when ReadSchema succeeds, and an Execute whose message cannot be sent.
use arcaflow_plugin_sdk_go.Common.{
  ℤ, pos, eqb_ℤ_iff, Bool, true, false, Option, none, some, ◌⊎◌, inl, inr, ◌↔◌, ◌≡◌, refl, sym, ap,
  ◌∙◌, arith, some_injective, subst, Option-cases,
}
use arcaflow_plugin_sdk_go.Go.Value.{Value}
use arcaflow_plugin_sdk_go.Atp.Protocol.{HelloMessage}
use arcaflow_plugin_sdk_go.Atp.Client.{Client, ClientError, validate_version}
use arcaflow_plugin_sdk_go.Atp.Client.Session.{read_schema, checked_version}

inr_injective {ℓ} : {B : Type ℓ} {a b : B} → (let x : ClientError ⊎ B = inr a in x) ≡ inr b → a ≡ b
inr_injective e = cc

version_iff : (v : ℤ) → (validate_version v ≡ none) ↔ ((v ≡ pos 1) ⊎ (v ≡ pos 3))
unfolding validate_version
version_iff v = ground (arith, eqb_ℤ_iff v (pos 1), eqb_ℤ_iff v (pos 3))

module _ {ℓ} {S : Type ℓ} (unserialize : Value → Option S) where
  -- What ReadSchema needs of the message, and the state that it leaves.
  abbrev pub Readable : Bool → Option HelloMessage → S → Type ℓ
  Readable writes hello s =
      (m : HelloMessage) × (writes ≡ true)
      × (hello ≡ some m)
      × ((m.version ≡ pos 1) ⊎ (m.version ≡ pos 3))
      × (unserialize m.schema ≡ some s)

  checked_iff :
      (m : HelloMessage) (o : Option ClientError) (c : Client) (s : S)
      → ((checked_version unserialize m o c).0 ≡ inr s)
        ↔ ((o ≡ none) × (unserialize m.schema ≡ some s))
  checked_iff m (some e) c s = (λ h. cc, λ h. cc)
  checked_iff m none c s = elim (Option-cases (unserialize m.schema)) [
    | inl missing ↦ rw missing (λ h. cc, λ h. cc)
    | inr (t, found) ↦
        rw found (λ h. (refl, ap some (inr_injective h)), λ h. ap inr (some_injective h.1))
  ]

  -- ReadSchema returns a schema exactly where the start can be sent, a message arrives that is of version 1 or 3 of
  -- the protocol, and its schema is unserialized to that schema.
  pub read_schema_iff :
      (writes : Bool) (hello : Option HelloMessage) (c : Client) (s : S)
      → ((read_schema unserialize writes hello c).0 ≡ inr s) ↔ Readable writes hello s
  unfolding read_schema
  read_schema_iff false hello c s = (λ h. cc, λ h. cc)
  read_schema_iff true none c s = (λ h. cc, λ h. cc (h.2))
  read_schema_iff true (some m) c s =
      let checked = checked_iff m (validate_version m.version) c s in
      let version = version_iff m.version in
      (
        λ h. (m, refl, refl, version.0 (checked.0 h).0, (checked.0 h).1),
        λ h. checked.1 (
          version.1 (
              subst (λ x. (x.version ≡ pos 1) ⊎ (x.version ≡ pos 3)) (sym (some_injective h.2))
                h.3),
          ap (λ x. unserialize x.schema) (some_injective h.2) ∙ h.4,
        ),
      )
