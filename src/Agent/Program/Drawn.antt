-- ===== src/Agent/Program/Drawn.antt =====
-- What the parts of the program leave of the heap and of the files, as the thread's end needs it.
use mathlib.Core.Path.{subst}
use aitrios_edge_device_core.Base.{
  if_intro, ◌∙◌, ℕ, ◌+◌, ◌≡◌, refl, inl, inr, true, not, ◌&&◌, arith, ℤ, is_nonzero, none, false,
  pos,
}
use aitrios_edge_device_core.Agent.Program.{Program, unless_faulted}
use aitrios_edge_device_core.Status.{is_tls_enabled, Settings}
use aitrios_edge_device_core.Esf.{Esf, Source}
use aitrios_edge_device_core.Esf.Proxy.{init_proxy_cache}
use aitrios_edge_device_core.Esf.Proxy.Cache.{IsEmpty, Balanced, Kept, init_proxy_cache-Kept, owned}
use aitrios_edge_device_core.Esf.Read.{ConfigKey, Store}
use aitrios_edge_device_core.Esf.Read.Memory.{Draws, Gives, LeavesNull-all, read_config-Gives}
use aitrios_edge_device_core.ConfigHooks.{is_mqtt_tls, get_config_impl}

pub idle_after_error :
    (others files : ℕ) (r : ℤ × Esf)
    → Kept others r
    → r.1.descriptors ≡ files
    → is_nonzero r.0 ≡ true
    → IsEmpty r.1 × (r.1.live ≡ others) × r.1.descriptors ≡ files
idle_after_error others files r (balanced, inl fine) same h = absurd (ground arith)
idle_after_error others files r (balanced, inr empty) same h =
    let none : owned r.1 ≡ 0 = rw (empty.0, empty.1, empty.2) refl in (empty, omega arith, same)

pub init-Kept :
    (source : Source) (others : ℕ) (c : Esf)
    → IsEmpty c
    → c.live ≡ others
    → Kept others (init_proxy_cache source c)
init-Kept source others c empty h =
    subst (λ n. Kept n (init_proxy_cache source c)) h (init_proxy_cache-Kept source c empty)

-- Blocks that are given to the library are not lost.
pub Draws-Balanced :
    (others files blocks : ℕ) (c c' : Esf)
    → Draws blocks c c'
    → Balanced others c × c.descriptors ≡ files
    → Balanced (others + blocks) c' × c'.descriptors ≡ files
Draws-Balanced others files blocks c c' (live, host, port, username, password, kept) (h, same) =
    let owns : owned c' ≡ owned c = rw (host, username, password) refl in (omega arith, kept ∙ same)

pub Draws-CacheIdle :
    (blocks files : ℕ) (c c' : Esf)
    → Draws 0 c c'
    → IsEmpty c × (c.live ≡ blocks) × c.descriptors ≡ files
    → IsEmpty c' × (c'.live ≡ blocks) × c'.descriptors ≡ files
Draws-CacheIdle blocks files c c' (live, host, port, username, password, kept)
      ((h, u, p), idle, same) =
    ((host ∙ h, username ∙ u, password ∙ p), omega arith, kept ∙ same)

module _ (settings : Settings) (e : Source) (st : Store) where
  pub get_config_impl-Gives :
      (key : ConfigKey) (c : Esf)
      → st.asprintf_left ≡ none
      → Gives e st c (get_config_impl settings e st key c)
  unfolding get_config_impl
  get_config_impl-Gives key c left =
      if_intro (Gives e st c) (is_mqtt_tls key && not (is_tls_enabled settings)) _ _
        (λ off. (omega arith, refl, refl, refl, refl, refl))
        (λ on. read_config-Gives e st key c (LeavesNull-all st key left))

-- An operation of a program that has not crashed.
pub running_on :
    (P : ℤ × Program → Type 0) (s : Program) (r : ℤ × Program)
    → s.faulted ≡ false
    → P r
    → P (unless_faulted s r)
running_on P s r fine h = if_intro P s.faulted (pos 0, s) r (λ crashed. absurd cc) (λ runs. h)
