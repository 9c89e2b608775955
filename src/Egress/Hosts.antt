-- ===== src/Egress/Hosts.antt =====
-- The ends of a host name.
use Prim.Native.String.{String, [], ◌∷◌}
use chief_opportunity_intell.Prelude.{Bool, ◌||◌, str_eq}

-- `text.endswith(suffix)`
unfoldable pub ends_with : String → String → Bool
ends_with [] suffix = str_eq suffix []
ends_with (c ∷ s) suffix = let shorter = ends_with s suffix in str_eq (c ∷ s) suffix || shorter

-- `host.endswith(".internal") or host.endswith(".local")`
unfoldable pub is_internal : String → Bool
unfolding ends_with
is_internal host = ends_with host ".internal" || ends_with host ".local"
