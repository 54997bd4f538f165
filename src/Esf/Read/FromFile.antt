-- ===== src/Esf/Read/FromFile.antt =====
-- What the reader answers for the client certificate and key: the first file of the directory whose
-- name contains the suffix, as far as it fits.
use aitrios_edge_device_core.Base.{
  has_nul, has_nul-take, ℕ, zero, suc, ◌+◌, ◌≤◌, ◌≡◌, refl, ap, inl, inr, Bool, true, false, Option,
  none, some, List, [], ◌∷◌, ◌++◌, ◌==◌, arith, if_intro, if◌then◌else◌, length, take, drop, set,
  replicate, CString, codes, ℤ, is_nonzero, length-take, Bool-cases,
}
use aitrios_edge_device_core.Esf.{Esf, Source}
use aitrios_edge_device_core.Esf.Proxy.{free, request}
use aitrios_edge_device_core.Esf.Read.{
  ConfigKey, mqtt_tls_client_cert, mqtt_tls_client_key, Config, Store, find_name, suffix_of,
  max_size_of, opened, print_path, dir_path, search_dir, get_cert_key_path, read_bytes, read_opened,
  read_path, read_cert_key, read_value, make_config, read_sized, read_config,
}
use aitrios_edge_device_core.Esf.Read.Chosen.{IsFirst, find_name-IsFirst}
use aitrios_edge_device_core.Esf.Read.Cached.{text, Answers, make_config-Answers}
use aitrios_edge_device_core.Esf.Read.TextFiles.{
  all_zero, TextFiles, all_zero-replicate, all_zero-drop,
}

-- A text over zeros is still there when a terminator is written behind it.
text-set :
    (s zeros : List ℕ) (i : ℕ)
    → has_nul s ≡ false
    → length s ≤ i
    → all_zero zeros ≡ true
    → text (set (s ++ zeros) i 0) ≡ s
text-set [] [] i no_nul h cleared = refl
text-set [] (zero ∷ zeros) zero no_nul h cleared = refl
text-set [] (zero ∷ zeros) (suc i) no_nul h cleared = refl
text-set [] (suc x ∷ zeros) i no_nul h cleared = absurd (ground arith)
text-set (zero ∷ s) zeros i no_nul h cleared = absurd (ground arith)
text-set (suc x ∷ s) zeros zero no_nul h cleared = absurd (omega arith)
text-set (suc x ∷ s) zeros (suc i) no_nul h cleared =
    ap (◌∷◌ (suc x)) (text-set s zeros i no_nul (omega arith) cleared)

-- The file that the directory has for a suffix.
abbrev pub in_dir : CString → Option CString → Option CString
in_dir dir none = none
in_dir dir (some name) = some (dir ++ codes "/" ++ name)

path_in : CString → CString → Option (List CString) → Option CString
unfolding find_name
path_in dir suffix none = none
path_in dir suffix (some names) = in_dir dir (find_name suffix names)

-- As many bytes of the file as fit; an empty file counts as none.
abbrev pub bytes_of : ℕ → Option (List ℕ) → Option CString
bytes_of n none = none
bytes_of n (some content) = if length (take n content) == 0 then none else some (take n content)

abbrev pub file_bytes : ℕ → Option (Option (List ℕ)) → Option CString
file_bytes n none = none
file_bytes n (some content) = bytes_of n content

-- Where the directory leads: to the first of its names that contains the suffix.
abbrev pub LeadsTo : CString → CString → Option (List CString) → Option CString → Type 0
LeadsTo dir suffix none path = path ≡ none
LeadsTo dir suffix (some names) path =
    (name : Option CString) × IsFirst suffix names name × (path ≡ in_dir dir name)

path_in-LeadsTo :
    (dir suffix : CString) (names : Option (List CString))
    → LeadsTo dir suffix names (path_in dir suffix names)
unfolding path_in
path_in-LeadsTo dir suffix none = refl
path_in-LeadsTo dir suffix (some names) =
    (find_name suffix names, find_name-IsFirst suffix names, refl)

abbrev pub AnswersFile : Option CString → Option Config → Type 0
AnswersFile none r = r ≡ none
AnswersFile (some s) r = Answers s r

-- A buffer with this text, or none.
abbrev HasText : Option CString → Option (List ℕ) → Type 0
HasText none value = value ≡ none
HasText (some s) none = ⊥
HasText (some s) (some buf) = text buf ≡ s

module _ (e : Source) (st : Store) where
  -- What the file at a path has, if there is a path.
  abbrev pub bytes_at : ℕ → Option CString → Option CString
  bytes_at n none = none
  bytes_at n (some path) = file_bytes n (st.open_file path)

  -- At most so many bytes of that file are answered.
  abbrev pub AnswersFirst : CString → ℕ → Option Config → Type 0
  AnswersFirst suffix n r =
      let dir = dir_path e st st.cert_key_dir in
      (path : Option CString) × LeadsTo dir suffix (st.open_dir dir) path
      × AnswersFile (bytes_at n path) r

  abbrev is_none : Option CString → Bool
  is_none none = true
  is_none (some s) = false

  -- The file that the key stands for.
  abbrev path_of : ConfigKey → Option CString
  path_of key =
      let dir = dir_path e st st.cert_key_dir in path_in dir (suffix_of key) (st.open_dir dir)

  module _ (room : (i : ℕ) → e.room i ≡ true) (text_files : TextFiles st) where
    print_path-path :
        (dir : CString) (name : Option CString) (c : Esf)
        → let r = print_path e st dir name (opened c) in
          (is_nonzero r.0 ≡ is_none (in_dir dir name)) × (r.1 ≡ in_dir dir name)
    print_path-path dir none c = (refl, refl)
    print_path-path dir (some name) c = rw (room c.requests) (refl, refl)

    search_dir-path :
        (key : ConfigKey) (dir : CString) (names : Option (List CString)) (c : Esf)
        → let r = search_dir e st key dir names c in
          let path = path_in dir (suffix_of key) names in
          (is_nonzero r.0 ≡ is_none path) × (r.1 ≡ path)
    unfolding search_dir path_in
    search_dir-path key dir none c = (refl, refl)
    search_dir-path key dir (some names) c = print_path-path dir (find_name (suffix_of key) names) c

    read_bytes-HasText :
        (n : ℕ) (path : CString) (content : Option (List ℕ))
        → st.open_file path ≡ some content
        → HasText (bytes_of n content) (read_bytes e st n (replicate (n + 1) 0) content)
    read_bytes-HasText n path none h = refl
    read_bytes-HasText n path (some content) h =
        let bytes = take n content in
        elim (Bool-cases (length bytes == 0)) [
          | inl empty ↦ rw empty refl
          | inr full ↦ rw full (
              text-set bytes (drop (length bytes) (replicate (n + 1) 0)) n
                (has_nul-take n content (text_files path content h))
                (omega (arith, length-take n content))
                (all_zero-drop (length bytes) _ (all_zero-replicate (n + 1))))
        ]

    read_opened-HasText :
        (n : ℕ) (path : CString) (file : Option (Option (List ℕ))) (c : Esf)
        → st.open_file path ≡ file
        → HasText (file_bytes n file) (read_opened e st n (replicate (n + 1) 0) file c).0
    read_opened-HasText n path none c h = refl
    read_opened-HasText n path (some content) c h = read_bytes-HasText n path content h

    -- The rest of `read_cert_key`, by what the search for the path has found.
    abbrev after_search : ℕ → ℤ × Option CString × Esf → Option (List ℕ) × Esf
    after_search n r =
        let (value, c') = read_path e st n (replicate (n + 1) 0) r.1 r.2 in
        if is_nonzero r.0 then (none, free r.1 r.2) else (value, free r.1 c')

    read_found-HasText :
        (n : ℕ) (path : Option CString) (r : ℤ × Option CString × Esf)
        → is_nonzero r.0 ≡ is_none path
        → r.1 ≡ path
        → HasText (bytes_at n path) (after_search n r).0
    read_found-HasText n none r failed same = rw failed refl
    read_found-HasText n (some path) r fine same =
        rw (fine, same) (read_opened-HasText n path (st.open_file path) r.2 refl)

    read_cert_key-HasText :
        (key : ConfigKey) (n : ℕ) (c : Esf)
        → HasText (bytes_at n (path_of key)) (read_cert_key e st key n (replicate (n + 1) 0) c).0
    unfolding read_cert_key get_cert_key_path
    read_cert_key-HasText key n c =
        let dir = dir_path e st st.cert_key_dir in
        let found = search_dir-path key dir (st.open_dir dir) c in
        read_found-HasText n (path_of key) (search_dir e st key dir (st.open_dir dir) c) found.0
          found.1

    make_config-AnswersFile :
        (key : ConfigKey) (o : Option CString) (value : Option (List ℕ)) (c : Esf)
        → HasText o value
        → AnswersFile o (make_config e st key (value, c)).0
    unfolding make_config
    make_config-AnswersFile key none none c h = refl
    make_config-AnswersFile key none (some buf) c h = absurd (ground arith)
    make_config-AnswersFile key (some s) none c h = absurd h
    make_config-AnswersFile key (some s) (some buf) c h =
        make_config-Answers e st key buf c s (room c.requests) h

    read_sized-AnswersFile :
        (key : ConfigKey) (n : ℕ) (c : Esf)
        → ((c' : Esf)
            → HasText (bytes_at n (path_of key)) (read_value e st key n (replicate (n + 1) 0) c').0)
        → AnswersFile (bytes_at n (path_of key)) (read_sized e st key n c).0
    unfolding read_sized
    read_sized-AnswersFile key n c h =
        let r = read_value e st key n (replicate (n + 1) 0) (request e c) in
        let made =
          make_config-AnswersFile key (bytes_at n (path_of key)) r.0 r.1 (h (request e c)) in
        if_intro (λ (r : Option Config × Esf). AnswersFile (bytes_at n (path_of key)) r.0)
          (e.room c.requests) _ _ (λ yes. made) (λ no. absurd (ground (arith, room c.requests)))

    answers_path :
        (key : ConfigKey) (n : ℕ) (c : Esf)
        → ((c' : Esf)
            → HasText (bytes_at n (path_of key)) (read_value e st key n (replicate (n + 1) 0) c').0)
        → AnswersFirst (suffix_of key) n (read_sized e st key n c).0
    answers_path key n c h =
        let dir = dir_path e st st.cert_key_dir in
        let leads = path_in-LeadsTo dir (suffix_of key) (st.open_dir dir) in
        (path_of key, leads, read_sized-AnswersFile key n c h)

    -- If every allocation succeeds and the files that can be read are text without a terminator
    -- inside, reading the MQTT client certificate answers at most 32768 bytes, and reading the key
    -- at most 4096 bytes, of the file whose name is the first of the directory to contain _cert.pem
    -- or _key.pem. If there is no directory, no such name, or the file cannot be opened or read or
    -- is empty, nothing is answered.
    pub read_config-AnswersFile :
        (c : Esf)
        → AnswersFirst (codes "_cert.pem") 32768 (read_config e st mqtt_tls_client_cert c).0
          × AnswersFirst (codes "_key.pem") 4096 (read_config e st mqtt_tls_client_key c).0
    unfolding read_config max_size_of read_value
    read_config-AnswersFile c = (
      answers_path mqtt_tls_client_cert 32768 c
          (λ c'. read_cert_key-HasText mqtt_tls_client_cert 32768 c'),
      answers_path mqtt_tls_client_key 4096 c
          (λ c'. read_cert_key-HasText mqtt_tls_client_key 4096 c'),
    )
