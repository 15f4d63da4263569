-- ===== src/Sign/Domains.antt =====
-- The signature domains keep commands, results and trust-state claims apart.
use power_manage.Shared.{ℕ, zero, suc, ◌≡◌, ◌≢◌, refl, [], ◌∷◌, Option, none, some, ok, arith}
use power_manage.Shared.Bytes.{Bytes}
use power_manage.Sign.Frame.{lp_all}
use power_manage.Sign.Frame.Injective.{Fits, lp_all_head}
use power_manage.Sign.Command.{
  SignedCommand, command_preimage, command_domain, command_domains, lookup_domain,
}
use power_manage.Sign.Command.Covered
use power_manage.Sign.Envelope.{DeviceSigned, result_preimage, result_domain, result_domains}
use power_manage.Sign.Envelope.Properties
use power_manage.Sign.TrustState.{
  TrustStateClaim, raw_preimage, trust_state_domain, trust_state_fields,
}

-- The byte that tells the three families apart: `power-manage:cmd:`, `power-manage:result:` and
-- `power-manage:trust-state:` first differ at index 13.
family : ℕ → Bytes → Option ℕ
family _ [] = none
family zero (b ∷ _) = some b
family (suc i) (_ ∷ bs) = family i bs

command_domain-family : (t d : Bytes) → command_domain t ≡ ok d → (family 13 d ≡ some b'c') × Fits d
unfolding command_domain command_domains lookup_domain family
command_domain-family t d h = ground arith

result_domain-family : (t d : Bytes) → result_domain t ≡ ok d → (family 13 d ≡ some b'r') × Fits d
unfolding result_domain result_domains lookup_domain family
result_domain-family t d h = ground arith

trust_state-family : family 13 trust_state_domain ≡ some b't'
unfolding family
trust_state-family = refl

-- The preimages of a command, of a result and of a trust-state claim are never the same bytes.
pub preimages_disjoint :
    (cmd : SignedCommand) (env : DeviceSigned) (claim : TrustStateClaim) (p q : Bytes)
    → command_preimage cmd ≡ ok p
    → result_preimage env ≡ ok q
    → (p ≢ q) × (p ≢ raw_preimage claim) × (q ≢ raw_preimage claim)
unfolding raw_preimage
preimages_disjoint cmd env claim p q hp hq =
    let f = Covered.command_preimage-Framed cmd p hp in
    let g = Properties.result_preimage-Framed env q hq in
    let c = command_domain-family cmd.command_type f.domain f.registered in
    let r = result_domain-family env.result_type g.domain g.registered in
    let cs = Covered.fields f.domain cmd f.issued f.expires in
    let rs = Properties.fields g.domain env g.issued in
    (
      λ e.
          let e' : lp_all cs ≡ lp_all rs = cc (f.framing, g.framing) in
          ground (arith, c.0, r.0, lp_all_head f.domain g.domain _ _ c.1 r.1 e'),
      λ e.
          let e' : lp_all cs ≡ lp_all (trust_state_fields claim) = cc (f.framing) in
          ground (
            arith,
            c.0,
            trust_state-family,
            lp_all_head f.domain trust_state_domain _ _ c.1 (omega arith) e',
          ),
      λ e.
          let e' : lp_all rs ≡ lp_all (trust_state_fields claim) = cc (g.framing) in
          ground (
            arith,
            r.0,
            trust_state-family,
            lp_all_head g.domain trust_state_domain _ _ r.1 (omega arith) e',
          ),
    )
