-- ===== src/Settings.antt =====
-- backend/internal/settings/settings.go: the keys of the settings table.
pub mod Store
use pelican_mc_router.Text.{Text, text}

abbrev pub key_pelican_url : Text
key_pelican_url = text "pelican.url"

abbrev pub key_pelican_api_key : Text
key_pelican_api_key = text "pelican.api_key"

abbrev pub key_pelican_secret_name : Text
key_pelican_secret_name = text "pelican.secret_name"

abbrev pub key_router_domain : Text
key_router_domain = text "router.domain"

abbrev pub key_setup_completed : Text
key_setup_completed = text "setup.completed"
