-- ===== src/Watching.antt =====
-- internal/controller/config.go: which namespaces the operator watches. The check of a namespace's name
-- is a parameter that returns what is wrong with it.
use thanos_operator.Common.{String, List, [], ◌∷◌, ◌==◌, if◌then◌else◌}

-- The namespaces of the cache, all of them where none is named.
pub record CacheOptions : Type 0 where
  pub default_namespaces : List String

pub data Watched : Type 0 where
  watching : CacheOptions → Watched
  invalid_namespace : List String → Watched

unfoldable pub checked_namespace : String → List String → Watched
checked_namespace namespace [] = watching (record { default_namespaces = namespace ∷ [] })
checked_namespace namespace (e ∷ errors) = invalid_namespace (e ∷ errors)

unfoldable pub cache_options_for_namespace : (String → List String) → String → Watched
unfolding checked_namespace
cache_options_for_namespace is_dns1123_label namespace =
    if namespace == ""
    then watching (record { default_namespaces = [] })
    else checked_namespace namespace (is_dns1123_label namespace)
