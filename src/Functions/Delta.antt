-- ===== src/Functions/Delta.antt =====
-- pkg/map/maps.go for strings, and endpointDelta of
-- internal/data_plane/function_metadata/function_metadata.go, which compares two lists of endpoints.
use dirigent.Prelude.{Bool, true, false, String, List, [], ◌∷◌, if◌then◌else◌, ite}
use dirigent.Prelude.Maps.{insert}
use dirigent.Prelude.Names.{string_discrete}
use dirigent.Functions.{UpstreamEndpoint, EndpointInfo}

-- Whether a string is a key of the map that Difference builds.
pub found_in : List String → String → Bool
found_in [] x = false
found_in (y ∷ ys) x = ite (string_discrete y x) true (found_in ys x)

-- Difference
pub difference : List String → List String → List String
unfolding found_in
difference [] b = []
difference (x ∷ xs) b = if found_in b x then difference xs b else x ∷ difference xs b

module _ {T : Type 0} (extractor : T → String) where
  -- The fields that ExtractField returns, in order.
  pub fields : List T → List String
  fields [] = []
  fields (x ∷ xs) = extractor x ∷ fields xs

  -- The map that ExtractField returns: of the entries with the same field the last one stays.
  pub index_from : List (String × T) → List T → List (String × T)
  index_from mm [] = mm
  index_from mm (x ∷ xs) = index_from (insert string_discrete (extractor x) x mm) xs

  pub extract_field : List T → List String × List (String × T)
  unfolding fields index_from
  extract_field xs = (fields xs, index_from [] xs)

pub record EndpointDelta : Type 0 where
  pub old : List (String × UpstreamEndpoint)
  pub new : List (String × EndpointInfo)
  pub to_add : List String
  pub to_remove : List String

-- endpointDelta
pub endpoint_delta : List UpstreamEndpoint → List EndpointInfo → EndpointDelta
unfolding extract_field difference
endpoint_delta old_endpoints new_endpoints =
    let (old_urls, old) = extract_field (λ (e : UpstreamEndpoint). e.url) old_endpoints in
    let (new_urls, new) = extract_field (λ (e : EndpointInfo). e.url) new_endpoints in
    record {
      old = old;
      new = new;
      to_add = difference new_urls old_urls;
      to_remove = difference old_urls new_urls;
    }
