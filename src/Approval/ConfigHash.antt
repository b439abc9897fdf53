-- ===== src/Approval/ConfigHash.antt =====
-- ComputeConfigHash of eami-gateway/internal/approval/router.go. SHA-256 is a parameter; a NUL byte
-- stands behind each field but the last.
use eaim.Base.{◌∷◌, ◌++◌}
use eaim.Base.Text.{Text}

unfoldable pub config_content : Text → Text → Text → Text → Text → Text
config_content tool_type base credentials paths rules =
    tool_type ++ (0 ∷ (base ++ (0 ∷ (credentials ++ (0 ∷ (paths ++ (0 ∷ rules)))))))

unfoldable pub compute_config_hash : (Text → Text) → Text → Text → Text → Text → Text → Text
unfolding config_content
compute_config_hash sha256_hex tool_type base credentials paths rules =
    sha256_hex (config_content tool_type base credentials paths rules)
