-- ===== src/Bridge/Process/Timeouts.antt =====
-- cmd/integrationbridge: ResolveDispatchTimeout of config.go and serverWriteTimeout of main.go. A
-- time.Duration is its 64-bit pattern in nanoseconds; it is positive below 2^63.
use fabric_hris.Prelude.{
  ℕ, ◌+◌, ◌*◌, ◌^◌, ◌%◌, ◌<◌, Text, text, is_empty, ltb, ◌&&◌, ◌↔◌, Option, none, some, arith,
  Bool-cases, inl, inr, if◌then◌else◌,
}

abbrev pub second : ℕ
second = 1000000000

abbrev pub placeholder_default : ℕ
placeholder_default = 30 * second

abbrev pub write_timeout_buffer : ℕ
write_timeout_buffer = 10 * second

unfoldable pub server_write_timeout : ℕ → ℕ
server_write_timeout dispatch_timeout = (dispatch_timeout + write_timeout_buffer) % 2 ^ 64

module _ (trim_space : Text → Text) (parse_duration : Text → Option ℕ) (getenv : Text → Text) where
  -- A parsed duration, or the default where it is none or not positive.
  unfoldable pub positive_or_default : Option ℕ → ℕ
  positive_or_default none = placeholder_default
  positive_or_default (some d) = if ltb 0 d && ltb d (2 ^ 63) then d else placeholder_default

  unfoldable pub resolve_dispatch_timeout : ℕ
  unfolding positive_or_default
  resolve_dispatch_timeout =
      let v = trim_space (getenv (text "BRIDGE_DISPATCH_TIMEOUT")) in
      if is_empty v then placeholder_default else positive_or_default (parse_duration v)

  positive_or_default-bounds :
      (d : Option ℕ) → (0 < positive_or_default d) × (positive_or_default d < 2 ^ 63)
  unfolding positive_or_default
  positive_or_default-bounds none = ground arith
  positive_or_default-bounds (some d) = ground arith

  resolved-bounds : (0 < resolve_dispatch_timeout) × (resolve_dispatch_timeout < 2 ^ 63)
  unfolding resolve_dispatch_timeout
  resolved-bounds =
      let v = trim_space (getenv (text "BRIDGE_DISPATCH_TIMEOUT")) in
      elim (Bool-cases (is_empty v)) [
        | inl blank ↦ ground arith
        | inr given ↦ ground (arith, positive_or_default-bounds (parse_duration v))
      ]

  -- Whatever the environment says, the dispatch timeout is positive; and the server's write timeout
  -- is positive and longer, exactly as long as ten seconds more do not leave the 64-bit range.
  pub server_write_timeout-exceeds_iff :
      (0 < resolve_dispatch_timeout)
      × (resolve_dispatch_timeout < 2 ^ 63)
      × (((resolve_dispatch_timeout < server_write_timeout resolve_dispatch_timeout)
            × (server_write_timeout resolve_dispatch_timeout < 2 ^ 63))
          ↔ (resolve_dispatch_timeout + write_timeout_buffer < 2 ^ 63))
  unfolding server_write_timeout
  server_write_timeout-exceeds_iff = let (low, high) = resolved-bounds in (low, high, ground arith)
