-- ===== src/Api/Dependencies/Purity.antt =====
-- The dependencies that read the headers, and the world.
use buildos_auth_service.Prelude.{◌≡◌, String, Option, arith}
use buildos_auth_service.External.{External}
use buildos_auth_service.Database.{World}
use buildos_auth_service.Api.Dependencies.{get_current_user_context, verify_internal_service}

pub get_current_user_context-world :
    (x : External) (token : String) (w : World) → (get_current_user_context x token w).1 ≡ w
unfolding get_current_user_context
get_current_user_context-world x token w = ground arith

pub verify_internal_service-world :
    (x : External) (api_key service_id : Option String) (w : World)
    → (verify_internal_service x api_key service_id w).1 ≡ w
unfolding verify_internal_service
verify_internal_service-world x api_key service_id w = ground arith
