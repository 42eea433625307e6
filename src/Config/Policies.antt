-- ===== src/Config/Policies.antt =====
-- About `parse_policy` of src/config.cpp.
use tcp_load_balancer.Base.{◌≡◌, refl, sym, ap, ◌∙◌, [], ◌∷◌, ◌++◌, some, arith}
use tcp_load_balancer.Base.Results.{ok}
use tcp_load_balancer.Config.Parser.{parse_policy, trim, lower, policy_named, policy_text}
use tcp_load_balancer.Config.{Policy, round_robin, least_connections, power_of_two_choices}
use tcp_load_balancer.Text.Trimming.{IsBlank, IsSolid, starts_solid, ends_solid, trim-append}
use tcp_load_balancer.Text.{Bytes}

starts_solid-lower : (s : Bytes) → starts_solid (lower s) ≡ starts_solid s
unfolding lower
starts_solid-lower [] = refl
starts_solid-lower (c ∷ s) = ground arith

ends_solid-lower : (s : Bytes) → ends_solid (lower s) ≡ ends_solid s
unfolding lower
ends_solid-lower [] = refl
ends_solid-lower (c ∷ []) = ground arith
ends_solid-lower (c ∷ (d ∷ s)) = ends_solid-lower (d ∷ s)

pub policy_text-IsSolid : (p : Policy) → IsSolid (policy_text p)
policy_text-IsSolid round_robin = record { starts = refl; ends = refl }
policy_text-IsSolid least_connections = record { starts = refl; ends = refl }
policy_text-IsSolid power_of_two_choices = record { starts = refl; ends = refl }

policy_named-policy_text : (p : Policy) → policy_named (policy_text p) ≡ some p
unfolding policy_named
policy_named-policy_text round_robin = refl
policy_named-policy_text least_connections = refl
policy_named-policy_text power_of_two_choices = refl

-- The text of a policy, in letters of either case and with any spaces around, is parsed back.
pub parse_policy-policy_text :
    (p : Policy) (s a b : Bytes)
    → lower s ≡ policy_text p
    → IsBlank a
    → IsBlank b
    → parse_policy (a ++ (s ++ b)) ≡ ok p
unfolding parse_policy
parse_policy-policy_text p s a b e ha hb =
    let v = policy_text-IsSolid p in
    let solid : IsSolid s = record {
      starts = sym (starts_solid-lower s) ∙ ap starts_solid e ∙ v.starts;
      ends = sym (ends_solid-lower s) ∙ ap ends_solid e ∙ v.ends;
    } in
    let trimmed : trim (a ++ (s ++ b)) ≡ s = trim-append a s b ha solid hb in
    ground (arith, trimmed, e, policy_named-policy_text p)
