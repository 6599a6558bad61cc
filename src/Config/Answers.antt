-- ===== src/Config/Answers.antt =====
-- What the Central System reads and what its changes do.
use open_ocpp_simu.Common.{
  ◌+◌, ◌≡◌, ◌≢◌, refl, true, false, ◌⊎◌, inl, inr, Option, none, some, List, [], ◌∷◌, map, Text,
  Bool-cases, text_eq, length, All, arith, if◌then◌else◌,
}
use open_ocpp_simu.Config.Keys.{Attributes, configuration_values, find}
use open_ocpp_simu.Config.Requests.{
  Section, accepted, rejected, reboot_required, KeyValue, IniFile, answer_key, write_key, IsStore,
  section_of, key_value, all_values, requested_values, get_configuration, set_configuration,
}

module _ {S : Type 0} (ini : IniFile S) where
  -- A request without keys is answered like the request of every key of the table.
  pub get_configuration_all :
      (s : S)
      → get_configuration ini s [] ≡ get_configuration ini s (map (λ e. e.0) configuration_values)
  unfolding get_configuration all_values requested_values configuration_values find text_eq
      key_value answer_key
  get_configuration_all s = refl

  answer_key_lem :
      (s : S) (k : Text) (ks : List Text) (o : Option Attributes) (rest : List KeyValue × List Text)
      → find configuration_values k ≡ o
      → length rest.0 + length rest.1 ≡ length ks
      → All (λ j. find configuration_values j ≡ none) rest.1
      → let r = answer_key ini s k o rest in
        (length r.0 + length r.1 ≡ length (k ∷ ks))
        × All (λ j. find configuration_values j ≡ none) r.1
  unfolding answer_key
  answer_key_lem s k ks none rest e l all = (omega arith, (e, all))
  answer_key_lem s k ks (some a) rest e l all = (omega arith, all)

  -- The answers and the keys listed as unknown are together as many as the keys requested, and no
  -- key listed as unknown is in the table.
  pub length-requested_values :
      (s : S) (keys : List Text)
      → let r = requested_values ini s keys in
        (length r.0 + length r.1 ≡ length keys) × All (λ k. find configuration_values k ≡ none) r.1
  unfolding requested_values
  length-requested_values s [] = (refl, tt)
  length-requested_values s (k ∷ ks) =
      let (l, all) = length-requested_values s ks in
      answer_key_lem s k ks (find configuration_values k) (requested_values ini s ks) refl l all

  -- A change of a key of the table is accepted, at once or for the next reboot, exactly if the
  -- key may be written. It then writes the value in the section of the key. Any other change is
  -- rejected and leaves the file alone.
  pub set_configuration_lem :
      (s : S) (key value : Text) (a : Attributes)
      → find configuration_values key ≡ some a
      → let r = set_configuration ini s key value in
        ((a.is_write ≡ true)
          × (r.0 ≡ (if a.is_reboot then reboot_required else accepted))
          × (r.1 ≡ ini.set s (section_of a) key value))
        ⊎ ((a.is_write ≡ false) × (r ≡ (rejected, s)))
  unfolding set_configuration write_key
  set_configuration_lem s key value a e = ground arith

  -- A value that is set for a key that may be written and read is read back, and not marked
  -- read-only, if the file reads back what is set in it. This holds for every value, also for one
  -- that a comment of the getters says is rejected.
  pub get_configuration-set_configuration :
      (s : S) (key value : Text) (a : Attributes)
      → IsStore ini
      → find configuration_values key ≡ some a
      → a.is_write ≡ true
      → a.is_read ≡ true
      → get_configuration ini (set_configuration ini s key value).1 (key ∷ []) ≡ (
        record { key = ini.key_string key; readonly = false; value = some (ini.value_string value) }
            ∷ [],
        [],
      )
  unfolding get_configuration set_configuration write_key requested_values answer_key key_value
  get_configuration-set_configuration s key value a store e w r =
      rw (set_configuration, write_key, e, w, r, store.get-set_self s (section_of a) key value) refl

  get-write_key :
      (s : S) (key other value : Text) (o : Option Attributes) (p : Section)
      → IsStore ini
      → key ≢ other
      → ini.get (write_key ini s key value o).1 p other ≡ ini.get s p other
  unfolding write_key
  get-write_key s key other value none p store ne = refl
  get-write_key s key other value (some a) p store ne = elim (Bool-cases a.is_write) [
    | inl w ↦ rw w (store.get-set_ne s (section_of a) p key other value (λ q. ne q.1))
    | inr w ↦ rw w refl
  ]

  answer_key-same :
      (s t : S) (key : Text) (o : Option Attributes) (rest : List KeyValue × List Text)
      → ((p : Section) → ini.get t p key ≡ ini.get s p key)
      → answer_key ini t key o rest ≡ answer_key ini s key o rest
  unfolding answer_key key_value
  answer_key-same s t key none rest h = refl
  answer_key-same s t key (some a) rest h = rw (h (section_of a)) refl

  -- A change, accepted or not, keeps the answer for every other key, if a file keeps what is not
  -- set.
  pub get_configuration-set_configuration_ne :
      (s : S) (key other value : Text)
      → IsStore ini
      → key ≢ other
      → get_configuration ini (set_configuration ini s key value).1 (other ∷ [])
        ≡ get_configuration ini s (other ∷ [])
  unfolding get_configuration requested_values set_configuration
  get_configuration-set_configuration_ne s key other value store ne =
      answer_key-same s (set_configuration ini s key value).1 other
        (find configuration_values other) ([], [])
        λ p. get-write_key s key other value (find configuration_values key) p store ne
