-- ===== src/ConfigHooks/Wiped.antt =====
-- What is left of the value of a configuration that was loaded and unloaded.
use aitrios_edge_device_core.Base.{
  if_both, ℕ, zero, suc, ◌+◌, ◌≤◌, ◌≡◌, refl, true, not, ◌&&◌, Option, none, some, List, [], ◌∷◌,
  ◌++◌, arith, length, drop, replicate, strlen,
}
use aitrios_edge_device_core.Esf.{Esf, Source}
use aitrios_edge_device_core.Esf.Read.{ConfigKey, mqtt_tls_client_key, Config, Store}
use aitrios_edge_device_core.Esf.Read.Bounds.{
  WritesAtMost, Fits, read_config-Fits, read_client_key-Fits,
}
use aitrios_edge_device_core.Esf.Read.TextFiles.{
  all_zero, zero_behind, TextFiles, TextBehind, value_of, read_client_key-TextBehind,
}
use aitrios_edge_device_core.Status.{Settings, is_tls_enabled}
use aitrios_edge_device_core.ConfigHooks.{
  is_mqtt_tls, get_config_impl, load_config_impl, unload_config_impl,
}

-- The call clears as many bytes as it is told to, where the buffer has them.
abbrev pub Zeroizes : (List ℕ → ℕ → List ℕ) → Type 0
Zeroizes zeroize =
    (buf : List ℕ) (n : ℕ) → n ≤ length buf → zeroize buf n ≡ replicate n 0 ++ drop n buf

-- The value after the configuration was loaded and unloaded.
pub unloaded : (List ℕ → ℕ → List ℕ) → Config → List ℕ
unfolding load_config_impl unload_config_impl
unloaded zeroize config =
    let (ret, vp, size) = load_config_impl config in unload_config_impl zeroize config vp size

-- The text and its terminator are cleared, and the buffer is otherwise as it was.
abbrev pub Wiped : (List ℕ → ℕ → List ℕ) → Option Config → Type 0
Wiped zeroize none = Unit {0}
Wiped zeroize (some config) =
    unloaded zeroize config
    ≡ replicate (strlen config.value + 1) 0 ++ drop (strlen config.value + 1) config.value

Fits-Wiped :
    (zeroize : List ℕ → ℕ → List ℕ) (config : Option Config)
    → Zeroizes zeroize
    → Fits config
    → Wiped zeroize config
unfolding unloaded
Fits-Wiped zeroize none zeroizes fits = tt
Fits-Wiped zeroize (some config) zeroizes (size, bound) =
    rw size (zeroizes config.value (strlen config.value + 1) (rw size at bound))

-- Nothing of the value is left.
abbrev pub Erased : (List ℕ → ℕ → List ℕ) → Option Config → Type 0
Erased zeroize none = Unit {0}
Erased zeroize (some config) = all_zero (unloaded zeroize config) ≡ true

-- Clearing such a text and its terminator clears the whole buffer.
all_zero-cleared :
    (buf : List ℕ)
    → zero_behind buf ≡ true
    → all_zero (replicate (suc (strlen buf)) 0 ++ drop (suc (strlen buf)) buf) ≡ true
unfolding strlen
all_zero-cleared [] h = refl
all_zero-cleared (zero ∷ buf) h = h
all_zero-cleared (suc x ∷ buf) h = all_zero-cleared buf h

Erased-config :
    (zeroize : List ℕ → ℕ → List ℕ) (config : Option Config)
    → Zeroizes zeroize
    → Fits config
    → TextBehind (value_of config)
    → Erased zeroize config
Erased-config zeroize none zeroizes fits behind = tt
Erased-config zeroize (some config) zeroizes fits behind =
    let next : strlen config.value + 1 ≡ suc (strlen config.value) = omega arith in
    let wiped = Fits-Wiped zeroize (some config) zeroizes fits in
    rw wiped (rw next (all_zero-cleared config.value behind))

module _ (settings : Settings) (e : Source) (st : Store) (zeroize : List ℕ → ℕ → List ℕ)
    (zeroizes : Zeroizes zeroize) where
  -- If the getters of the system manager write no more bytes than they are told there is room for,
  -- and the platform's call clears the bytes that it is told to where the buffer has them, then
  -- loading and unloading any configuration that get_config_impl returns, for any key and state,
  -- clears exactly its text with the terminator and leaves the rest of its buffer as it was.
  pub get_config_impl-Wiped :
      (key : ConfigKey) (c : Esf)
      → WritesAtMost st.get_root_ca
      → WritesAtMost st.get_evp_hub_url
      → WritesAtMost st.get_evp_hub_port
      → WritesAtMost st.get_evp_iot_platform
      → Wiped zeroize (get_config_impl settings e st key c).0
  unfolding get_config_impl
  get_config_impl-Wiped key c ca url port iot =
      if_both (λ (r : Option Config × Esf). Wiped zeroize r.0)
        (is_mqtt_tls key && not (is_tls_enabled settings)) _ _ tt
        (Fits-Wiped zeroize _ zeroizes (read_config-Fits e st key c ca url port iot))

  -- If the files that can be read are text without a terminator inside, and the platform's call
  -- clears the bytes that it is told to where the buffer has them, then after loading and unloading
  -- the MQTT client key that get_config_impl returns, if it returns one, its whole buffer is zero.
  pub get_config_impl-Erased :
      (c : Esf)
      → TextFiles st
      → Erased zeroize (get_config_impl settings e st mqtt_tls_client_key c).0
  unfolding get_config_impl
  get_config_impl-Erased c text_files =
      if_both (λ (r : Option Config × Esf). Erased zeroize r.0) (not (is_tls_enabled settings)) _ _
        tt
        (Erased-config zeroize _ zeroizes (read_client_key-Fits e st c)
          (read_client_key-TextBehind e st text_files c))
