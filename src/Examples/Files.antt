-- ===== src/Examples/Files.antt =====
-- A directory with two files: texts that encode and print as themselves, on a file system that takes
-- names of at most seven characters.
use qu_v.Prelude.{◌≡◌, refl, true, Text, codes, ltb, length, some, List, [], ◌∷◌}
use qu_v.Core.Storage.{keys}
use qu_v.Runtime.{Platform}
use qu_v.Runtime.Names.{IsFaithful}
use qu_v.Runtime.Refines.{
  Call, puts, gets, deletes, lists, replies_fs, replies_memory, fs_adapter-memory_adapter,
}

abbrev plain : Platform Text
plain = record {
  encode = λ t. some t;
  decode = λ t. some t;
  stringify = λ t. t;
  parse = λ t. some t;
  readdir = λ d. keys d;
  takes = λ n. ltb (length n) 8;
}

plain-IsFaithful : IsFaithful plain
plain-IsFaithful = record {
  decodes = λ k n e. cc e;
  parses = λ v. refl;
  In-readdir = λ d n m. ((λ h. h), (λ h. h));
  readdir-Distinct = λ d m. m;
}

abbrev calls : List (Call Text)
calls =
    puts (codes "b") (codes "2")
    ∷ puts (codes "a") (codes "1")
    ∷ puts (codes "long") (codes "3")
    ∷ deletes (codes "c")
    ∷ gets (codes "b")
    ∷ lists [] (some 1) true
    ∷ []

fs_adapter-memory_adapter_example : replies_fs plain [] calls ≡ replies_memory plain [] calls
fs_adapter-memory_adapter_example = fs_adapter-memory_adapter plain plain-IsFaithful calls
