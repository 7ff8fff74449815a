-- ===== src/FileServer/Tests.antt =====
-- Runs of the file server.
use tuzy.Shared.{
  ◌≡◌, refl, inr, true, false, Option, none, some, List, [], ◌∷◌, same_bytes, if◌then◌else◌,
}
use tuzy.Protocol.{Bytes}
use tuzy.Tunnel.CloseReason.{ascii_bytes}
use tuzy.FileServer.{Os, Entry, plain, link, Root, hidden_via_symlink, target_of}
use tuzy.FileServer.Files.{DirEntry, File, Fs, DirFile, open_file}
use tuzy.FileServer.Open.{IsGuarded, open_file-IsGuarded, IsPaged, IsShown, reads, reads_lem}
use tuzy.FileServer.Writer.{sets_status, writes, ending, serve_file, sent, serve_file_lem}

abbrev unix : Os
unix = record {
  windows = false;
  is_abs = λ path. same_bytes path (47 ∷ []);
  to_slash = λ path. path;
}

-- A site with a page, a hidden file, a link to each, and a link into a hidden directory.
abbrev kind_of : Bytes → Option Entry
kind_of path =
    if same_bytes path (ascii_bytes "index.html")
    then some plain
    else if same_bytes path (ascii_bytes "home")
    then some link
    else if same_bytes path (ascii_bytes "secrets")
    then some link
    else if same_bytes path (ascii_bytes "hooks")
    then some link
    else if same_bytes path (ascii_bytes "settings")
    then some link
    else none

abbrev leads_to : Bytes → Option Bytes
leads_to path =
    if same_bytes path (ascii_bytes "home")
    then some (ascii_bytes "./index.html")
    else if same_bytes path (ascii_bytes "secrets")
    then some (ascii_bytes ".env")
    else if same_bytes path (ascii_bytes "hooks")
    then some (ascii_bytes ".git/hooks")
    else if same_bytes path (ascii_bytes "settings")
    then some (ascii_bytes "hooks/../config")
    else none

abbrev site : Root
site = record { lstat = kind_of; readlink = leads_to }

abbrev page_file : File
page_file = record { stat = inr false; lists = false; listing = inr [] }

abbrev files : Fs
files = λ name. inr page_file

open_file-IsGuarded_example :
    IsGuarded unix site (ascii_bytes "home") (open_file unix site files (ascii_bytes "home"))
open_file-IsGuarded_example = open_file-IsGuarded unix site files (ascii_bytes "home")

home_is_served : hidden_via_symlink unix site (ascii_bytes "home") ≡ false
unfolding hidden_via_symlink target_of
home_is_served = refl

secrets_are_hidden : hidden_via_symlink unix site (ascii_bytes "secrets") ≡ true
unfolding hidden_via_symlink target_of
secrets_are_hidden = refl

-- A target that goes up from behind another link is cleaned by its text, to "config", which does not exist;
-- a resolution segment by segment would lead to ".git/config".
settings_pass : hidden_via_symlink unix site (ascii_bytes "settings") ≡ false
unfolding hidden_via_symlink target_of
settings_pass = refl

abbrev listing : List DirEntry
listing =
    record { name = ascii_bytes "home"; is_link = true }
    ∷ record { name = ascii_bytes ".env"; is_link = false }
    ∷ record { name = ascii_bytes "secrets"; is_link = true }
    ∷ record { name = ascii_bytes "index.html"; is_link = false }
    ∷ []

reads_lem_example :
    let d : DirFile = record {
      dir = ascii_bytes ".";
      listing = inr listing;
      entries = [];
      loaded = false;
    } in
    (shown : List DirEntry) × IsShown unix site (ascii_bytes ".") listing shown
    × IsPaged shown (1 ∷ 5 ∷ 2 ∷ []) (reads unix site (1 ∷ 5 ∷ 2 ∷ []) d)
reads_lem_example = reads_lem unix site (ascii_bytes ".") listing (1 ∷ 5 ∷ 2 ∷ [])

serve_file_lem_example :
    serve_file (writes (104 ∷ []) ∷ sets_status 404 ∷ writes (105 ∷ []) ∷ []) true
    ≡ sent 200 (104 ∷ 105 ∷ []) (ending true)
serve_file_lem_example =
    serve_file_lem (writes (104 ∷ []) ∷ sets_status 404 ∷ writes (105 ∷ []) ∷ []) true
