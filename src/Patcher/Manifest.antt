-- ===== src/Patcher/Manifest.antt =====
-- crates/patcher/src/manifest.rs: `add_unifiedpush_receiver` and `add_permission`, on the text of the
-- manifest.
use pushcompat.Prelude.{
  [], ◌∷◌, ◌++◌, Option, none, some, Bool, not, ◌||◌, Text, bytes, starts_with, if◌then◌else◌,
}

-- `str::contains`.
unfoldable pub contains : Text → Text → Bool
unfolding starts_with
contains sub [] = starts_with sub []
contains sub (c ∷ s) = starts_with sub (c ∷ s) || contains sub s

abbrev pub behind : Option (Text × Text) → Text → Option (Text × Text)
behind none before = none
behind (some (u, v)) before = some (before ++ u, v)

-- `str::find`: what stands before the first occurrence, and the text from there on.
unfoldable pub split_at : Text → Text → Option (Text × Text)
unfolding starts_with
split_at sub [] = if starts_with sub [] then some ([], []) else none
split_at sub (c ∷ s) =
    let rest = behind (split_at sub s) (c ∷ []) in
    if starts_with sub (c ∷ s) then some ([], c ∷ s) else rest

abbrev pub inserted : Text → Option (Text × Text) → Option Text
inserted text none = none
inserted text (some (u, v)) = some (u ++ (text ++ v))

-- `find` and `insert_str` before what is found.
unfoldable pub insert_before : Text → Text → Text → Option Text
unfolding split_at
insert_before sub text s = inserted text (split_at sub s)

-- The literals of the source.
unfoldable pub receiver_class : Text
receiver_class = bytes "com.benzeneos.pushcompat.shim.PushCompatReceiver"

unfoldable pub internet : Text
internet = bytes "android.permission.INTERNET"

unfoldable pub ntfy : Text
ntfy = bytes "io.heckel.ntfy"

unfoldable pub uses_permission : Text
uses_permission = bytes "<uses-permission"

unfoldable pub application : Text
application = bytes "<application"

unfoldable pub application_end : Text
application_end = bytes "</application>"

unfoldable pub queries : Text
queries = bytes "<queries>"

unfoldable pub queries_end : Text
queries_end = bytes "</queries>"

unfoldable pub receiver_declaration : Text
receiver_declaration =
    bytes "\n        <receiver\n            android:name=\""
    ++ (bytes "com.benzeneos.pushcompat.shim.PushCompatReceiver"
        ++ (bytes "\"\n            android:exported=\"true\">\n            <intent-filter>\n"
            ++ (bytes
                  "                <action android:name=\"org.unifiedpush.android.connector.MESSAGE\"/>\n"
                ++ (bytes
                      "                <action android:name=\"org.unifiedpush.android.connector.NEW_ENDPOINT\"/>\n"
                    ++ (bytes
                          "                <action android:name=\"org.unifiedpush.android.connector.REGISTRATION_FAILED\"/>\n"
                        ++ (bytes
                              "                <action android:name=\"org.unifiedpush.android.connector.UNREGISTERED\"/>\n"
                            ++ bytes "            </intent-filter>\n        </receiver>\n    "))))))

unfoldable pub queries_section : Text
queries_section =
    bytes "\n    <queries>\n        <package android:name=\"io.heckel.ntfy\"/>\n    </queries>\n"

unfoldable pub ntfy_package : Text
ntfy_package = bytes "        <package android:name=\"io.heckel.ntfy\"/>\n    "

abbrev pub perm_line : Text → Text
perm_line permission =
    bytes "    <uses-permission android:name=\"" ++ (permission ++ bytes "\"/>\n")

abbrev pub or_else : Option Text → Option Text → Option Text
or_else none b = b
or_else (some a) b = some a

abbrev pub or_same : Option Text → Text → Text
or_same none s = s
or_same (some t) s = t

-- Before the first permission, or else before the application.
unfoldable pub add_permission : Text → Text → Text
unfolding insert_before uses_permission application
add_permission permission manifest =
    or_same
      (or_else (insert_before uses_permission (perm_line permission) manifest)
        (insert_before application (perm_line permission) manifest))
      manifest

-- `none` is an error.
unfoldable pub add_queries : Text → Option Text
unfolding contains insert_before queries application queries_section ntfy queries_end ntfy_package
add_queries content =
    if not (contains queries content)
    then some (or_same (insert_before application queries_section content) content)
    else if not (contains ntfy content)
    then insert_before queries_end ntfy_package content
    else some content

abbrev pub with_queries : Option Text → Option Text
with_queries none = none
with_queries (some content) = add_queries content

abbrev pub with_internet : Text → Text
with_internet content =
    if contains internet content then content else add_permission internet content

-- The text that the file has afterwards; an error leaves it as it was.
unfoldable pub add_unifiedpush_receiver : Text → Option Text
unfolding contains add_permission insert_before receiver_class internet application_end
    receiver_declaration add_queries
add_unifiedpush_receiver content =
    if contains receiver_class content
    then some content
    else with_queries (insert_before application_end receiver_declaration (with_internet content))
