-- ===== src/Store/Credentials/Tests.antt =====
-- Runs of credential replacements.
use pluribus.Base.{◌≡◌, ◌&&◌, [], ◌∷◌, none, some, if◌then◌else◌, ◌==◌, option_eq, list_eq, nat_eq}
use pluribus.Store.Tables.{empty, pair_eq}
use pluribus.Store.Credentials.{
  credential, read_plugin_credential, replace_plugin_credential, replace_plugin_credential_lem,
}

replace_plugin_credential_lem_example :
    ((replace_plugin_credential empty "gh" "token" none (1 ∷ [])).0
      ≡ (read_plugin_credential empty "gh" "token" == none))
    × (read_plugin_credential
          (replace_plugin_credential empty "gh" "token" none (1 ∷ [])).1
          "gh"
          "token"
        ≡ (if (read_plugin_credential empty "gh" "token" == none)
              && (credential "gh" "token" == credential "gh" "token")
            then some (1 ∷ [])
            else read_plugin_credential empty "gh" "token"))
replace_plugin_credential_lem_example =
    replace_plugin_credential_lem empty "gh" "token" none (1 ∷ []) "gh" "token"
