-- ===== src/Names/Tests.antt =====
-- Specs of containers.
use eyedebugger.Prelude.{◌≡◌, refl, none, some, false, [], ◌∷◌}
use eyedebugger.Api.{pos}
use eyedebugger.Names.{
  ContainerSpec, max_ref_len, max_host_len, max_context_len, max_service_len, max_group_len,
  is_negative, bad_ref, validate_spec,
}
use eyedebugger.Names.Arguments.{IsArgument, IsOptional, validate_spec-IsSafe}

-- The container "web" at unix:///d
abbrev web : ContainerSpec
web = record {
  ref = 119 ∷ 101 ∷ 98 ∷ [];
  host = 117 ∷ 110 ∷ 105 ∷ 120 ∷ 58 ∷ 47 ∷ 47 ∷ 47 ∷ 100 ∷ [];
  context = [];
  service = 119 ∷ [];
  project = [];
  pid = pos 1;
}

web-valid : validate_spec web ≡ none
unfolding validate_spec
web-valid = refl

-- "-f" is no container.
validate_spec-option : validate_spec (record web { ref = 45 ∷ 102 ∷ [] }) ≡ some bad_ref
unfolding validate_spec
validate_spec-option = refl

validate_spec-IsSafe_example :
    IsArgument max_ref_len web.ref
    × IsOptional max_host_len web.host
    × IsOptional max_context_len web.context
    × IsOptional max_service_len web.service
    × IsOptional max_group_len web.project
    × (is_negative web.pid ≡ false)
validate_spec-IsSafe_example = validate_spec-IsSafe web web-valid
