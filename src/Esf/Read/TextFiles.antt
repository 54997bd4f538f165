-- ===== src/Esf/Read/TextFiles.antt =====
-- The buffer behind a client certificate or key that is read from a text file.
use aitrios_edge_device_core.Base.{
  has_nul-take, if_both, ℕ, zero, suc, ◌+◌, ◌≤◌, ◌≡◌, refl, Bool, true, false, Option, none, some,
  List, [], ◌∷◌, ◌++◌, ◌==◌, arith, length, take, drop, set, replicate, is_nonzero, CString,
  has_nul, length-take,
}
use aitrios_edge_device_core.Esf.{Esf, Source}
use aitrios_edge_device_core.Esf.Proxy.{request}
use aitrios_edge_device_core.Esf.Read.{
  ConfigKey, mqtt_tls_client_key, Config, Store, max_size_of, read_opened, read_path,
  get_cert_key_path, read_cert_key, read_value, make_config, read_sized, read_config,
}

abbrev pub all_zero : List ℕ → Bool
all_zero [] = true
all_zero (zero ∷ xs) = all_zero xs
all_zero (suc x ∷ xs) = false

-- There are only zeros behind the text.
abbrev pub zero_behind : List ℕ → Bool
zero_behind [] = true
zero_behind (zero ∷ buf) = all_zero buf
zero_behind (suc x ∷ buf) = zero_behind buf

pub all_zero-replicate : (n : ℕ) → all_zero (replicate n 0) ≡ true
all_zero-replicate zero = refl
all_zero-replicate (suc n) = all_zero-replicate n

pub all_zero-drop : (n : ℕ) (buf : List ℕ) → all_zero buf ≡ true → all_zero (drop n buf) ≡ true
all_zero-drop zero buf h = h
all_zero-drop (suc n) [] h = h
all_zero-drop (suc n) (zero ∷ buf) h = all_zero-drop n buf h
all_zero-drop (suc n) (suc x ∷ buf) h = absurd (ground arith)

all_zero-set : (i : ℕ) (buf : List ℕ) → all_zero buf ≡ true → all_zero (set buf i 0) ≡ true
all_zero-set i [] h = h
all_zero-set zero (zero ∷ buf) h = h
all_zero-set (suc i) (zero ∷ buf) h = all_zero-set i buf h
all_zero-set i (suc x ∷ buf) h = absurd (ground arith)

-- A text that is written over zeros, also when its buffer is ended by a terminator behind it.
zero_behind-set :
    (text zeros : List ℕ) (i : ℕ)
    → has_nul text ≡ false
    → length text ≤ i
    → all_zero zeros ≡ true
    → zero_behind (set (text ++ zeros) i 0) ≡ true
zero_behind-set [] [] i no_nul h cleared = refl
zero_behind-set [] (zero ∷ zeros) zero no_nul h cleared = cleared
zero_behind-set [] (zero ∷ zeros) (suc i) no_nul h cleared = all_zero-set i zeros cleared
zero_behind-set [] (suc x ∷ zeros) i no_nul h cleared = absurd (ground arith)
zero_behind-set (zero ∷ text) zeros i no_nul h cleared = absurd (ground arith)
zero_behind-set (suc x ∷ text) zeros zero no_nul h cleared = absurd (omega arith)
zero_behind-set (suc x ∷ text) zeros (suc i) no_nul h cleared =
    zero_behind-set text zeros i no_nul (omega arith) cleared

-- A file of the store that can be read is text.
abbrev pub TextFiles : Store → Type 0
TextFiles st =
    (path : CString) (content : List ℕ)
    → st.open_file path ≡ some (some content)
    → has_nul content ≡ false

abbrev pub TextBehind : Option (List ℕ) → Type 0
TextBehind none = Unit {0}
TextBehind (some buf) = zero_behind buf ≡ true

-- The buffer of a configuration, if there is one.
abbrev pub value_of : Option Config → Option (List ℕ)
value_of none = none
value_of (some config) = some config.value

module _ (e : Source) (st : Store) (text_files : TextFiles st) where
  read_opened-TextBehind :
      (n : ℕ) (path : CString) (file : Option (Option (List ℕ))) (c : Esf)
      → st.open_file path ≡ file
      → TextBehind (read_opened e st n (replicate (n + 1) 0) file c).0
  read_opened-TextBehind n path none c h = tt
  read_opened-TextBehind n path (some none) c h = tt
  read_opened-TextBehind n path (some (some content)) c h =
      let bytes = take n content in
      if_both TextBehind (length bytes == 0) _ _ tt (
        zero_behind-set bytes (drop (length bytes) (replicate (n + 1) 0)) n
          (has_nul-take n content (text_files path content h))
          (omega (arith, length-take n content))
          (all_zero-drop (length bytes) _ (all_zero-replicate (n + 1))))

  read_path-TextBehind :
      (n : ℕ) (path : Option CString) (c : Esf)
      → TextBehind (read_path e st n (replicate (n + 1) 0) path c).0
  read_path-TextBehind n none c = tt
  read_path-TextBehind n (some path) c = read_opened-TextBehind n path (st.open_file path) c refl

  read_cert_key-TextBehind :
      (key : ConfigKey) (n : ℕ) (c : Esf)
      → TextBehind (read_cert_key e st key n (replicate (n + 1) 0) c).0
  unfolding read_cert_key
  read_cert_key-TextBehind key n c =
      let r = get_cert_key_path e st key c in
      if_both (λ (r : Option (List ℕ) × Esf). TextBehind r.0) (is_nonzero r.0) _ _ tt
        (read_path-TextBehind n r.1 r.2)

  make_config-TextBehind :
      (key : ConfigKey) (value : Option (List ℕ)) (c : Esf)
      → TextBehind value
      → TextBehind (value_of (make_config e st key (value, c)).0)
  unfolding make_config
  make_config-TextBehind key none c h = tt
  make_config-TextBehind key (some buf) c h =
      if_both (λ (r : Option Config × Esf). TextBehind (value_of r.0)) (e.room c.requests) _ _ h tt

  read_sized-TextBehind :
      (key : ConfigKey) (n : ℕ) (c : Esf)
      → ((c' : Esf) → TextBehind (read_value e st key n (replicate (n + 1) 0) c').0)
      → TextBehind (value_of (read_sized e st key n c).0)
  unfolding read_sized
  read_sized-TextBehind key n c h =
      let r = read_value e st key n (replicate (n + 1) 0) (request e c) in
      if_both (λ (r : Option Config × Esf). TextBehind (value_of r.0)) (e.room c.requests) _ _
        (make_config-TextBehind key r.0 r.1 (h (request e c))) tt

  -- The client key is only the text of its file, with zeros behind.
  pub read_client_key-TextBehind :
      (c : Esf) → TextBehind (value_of (read_config e st mqtt_tls_client_key c).0)
  unfolding read_config max_size_of read_value
  read_client_key-TextBehind c =
      read_sized-TextBehind mqtt_tls_client_key 4096 c
        (λ c'. read_cert_key-TextBehind mqtt_tls_client_key 4096 c')
