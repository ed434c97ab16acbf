-- ===== src/ClientProgram/Handlers.antt =====
-- The handlers of the client's manager in cs_client.go: ChangeProxyModeH, UpdateGfwlistH with
-- UpdateGfwlist, and PACH. Files, the download of the list and the JSON of the rules are parameters.
pub mod Modes
use gocs.Prelude.{
  ℕ, zero, suc, Bool, true, false, Option, none, some, List, [], ◌∷◌, ◌++◌, Bytes, codes,
  if◌then◌else◌, has_prefix, length, drop,
}
use gocs.Errors.{Error, errorf, message, Result, ok, err}
use gocs.Auth.{Response}
use gocs.GoText.{split}
use gocs.ClientProgram.{
  ClientConf, Client, StartEnv, change_proxy_mode, is_nil, is_empty, last_part,
}

abbrev pub fail_with : Error → Response
fail_with e = record { status = 500; body = message e }

-- The answer where everything went well, or what failed.
abbrev pub ok_or : Option Error → Response
ok_or none = record { status = 200; body = codes "ok" }
ok_or (some e) = fail_with e

-- `c.Conf.Mode = mode`
abbrev pub with_mode : Bytes → Client → Client
with_mode mode c = record c { conf = record c.conf { mode = mode } }

-- ChangeProxyModeH behind ChangeProxyMode, for what WriteJSON answers.
abbrev pub after_change :
    (ClientConf → Option Error) → Bytes → Option Error → Client → Response × Client
after_change write mode (some e) c = (fail_with e, c)
after_change write mode none c = (ok_or (write (with_mode mode c).conf), with_mode mode c)

unfoldable pub change_proxy_mode_h :
    StartEnv → (ClientConf → Option Error) → Bytes → Client → Response × Client
change_proxy_mode_h env write mode c =
    let (r, c') = change_proxy_mode env mode c in after_change write mode r.1 c'

abbrev pub after_bytes : (Bytes → Option Error) → Result Bytes → Option Error
after_bytes write (err e) = some e
after_bytes write (ok list) = write list

-- UpdateGfwlist, for what GetBytes and WriteFile answer.
unfoldable pub update_gfwlist : Result Bytes → (Bytes → Option Error) → Client → Option Error
update_gfwlist download write c =
    if is_nil c.pool
    then some (errorf (codes "proxy server is not started"))
    else after_bytes write download

-- UpdateGfwlistH
pub update_gfwlist_h : Result Bytes → (Bytes → Option Error) → Client → Response
unfolding update_gfwlist
update_gfwlist_h download write c = ok_or (update_gfwlist download write c)

-- strings.Replace(s, old, new, -1) for an old text that is not empty: how many bytes of an
-- occurrence are still to be left out, and the text.
unfoldable pub replace_from : Bytes → Bytes → ℕ → Bytes → Bytes
unfolding has_prefix
replace_from old new skip [] = []
replace_from old new (suc skip) (b ∷ s) = replace_from old new skip s
replace_from old new zero (b ∷ s) =
    let there = replace_from old new (length (drop 1 old)) s in
    let past = replace_from old new 0 s in if has_prefix old (b ∷ s) then new ++ there else b ∷ past

unfoldable pub replace_all : Bytes → Bytes → Bytes → Bytes
unfolding replace_from
replace_all old new s = replace_from old new 0 s

-- strings.Replace(s, old, new, 1).
unfoldable pub replace_first : Bytes → Bytes → Bytes → Bytes
unfolding has_prefix
replace_first old new [] = []
replace_first old new (b ∷ s) =
    let rest = replace_first old new s in
    if has_prefix old (b ∷ s) then new ++ drop (length old) (b ∷ s) else b ∷ rest

-- The address of the proxy that the script names.
abbrev pub pac_address : ClientConf → Bytes
pac_address conf = if is_empty conf.auto_proxy_addr then conf.proxy_addr else conf.auto_proxy_addr

-- The script, from its template, for the JSON of the rules.
unfoldable pub pac_script : ClientConf → Bytes → Bytes → Bytes
unfolding replace_first replace_all split
pac_script conf template rules =
    replace_all (codes "__SOCKS5PORT__") (last_part (split b':' (pac_address conf))) (
      replace_all (codes "__SOCKS5ADDR__") (codes "127.0.0.1")
        (replace_first (codes "__RULES__") rules template))

abbrev not_started : Error
not_started = errorf (codes "proxy server is not started")

abbrev pub pac_rules : (List Bytes → Bytes) → Client → Bytes → Result (List Bytes) → Response
pac_rules marshal c template (err e) = fail_with e
pac_rules marshal c template (ok rules) =
    if is_nil c.server
    then fail_with not_started
    else record { status = 200; body = pac_script c.conf template (marshal rules) }

-- PACH, for what the reads of abp.js and of the rules answer.
unfoldable pub pac_h : (List Bytes → Bytes) → Result Bytes → Result (List Bytes) → Client → Response
unfolding pac_script
pac_h marshal (err e) rules c = fail_with e
pac_h marshal (ok template) rules c = pac_rules marshal c template rules
