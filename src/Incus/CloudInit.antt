-- ===== src/Incus/CloudInit.antt =====
-- internal/incusclient/ssh.go: the cloud-config of a new guest, which sets its root password in a shell command.
pub mod Quoted
use Prim.Native.Char.{Char, code}
use goincus.Base.{
  ℕ, zero, suc, ◌+◌, ◌*◌, ◌/◌, ◌%◌, String, ◌<>◌, Bool, List, [], ◌∷◌, ◌++◌, ◌==◌, ℕ-Eq, ltb,
  if◌then◌else◌,
}
use goincus.Base.Utf8.{utf8}
use goincus.Base.Decimal.{decimal}

-- The character at a place of a text that starts with `c`, its last one beyond the end.
unfoldable pub char_at : ℕ → (c : Char) → String → Char
char_at zero c s = c
char_at (suc n) c String.[] = c
char_at (suc n) c (String.◌∷◌ d s) = char_at n d s

abbrev pub alphabet : String
alphabet = "BCDEFGHIJKLMNOPQRSTUVWXYZabcdefghijklmnopqrstuvwxyz0123456789+/"

-- The character of Base64 for six bits.
unfoldable pub sextet : ℕ → Char
unfolding char_at
sextet n = char_at n "A" alphabet

-- `base64.StdEncoding.EncodeToString`: three bytes are four characters.
unfoldable pub base64 : List ℕ → String
unfolding sextet
base64 [] = ""
base64 (a ∷ []) = String.◌∷◌ (sextet (a / 4)) (String.◌∷◌ (sextet (a % 4 * 16)) "==")
base64 (a ∷ b ∷ []) =
    String.◌∷◌ (sextet (a / 4))
      (String.◌∷◌ (sextet (a % 4 * 16 + b / 16)) (String.◌∷◌ (sextet (b % 16 * 4)) "="))
base64 (a ∷ b ∷ c ∷ bytes) = String.◌∷◌ (sextet (a / 4)) (
    String.◌∷◌ (sextet (a % 4 * 16 + b / 16))
      (String.◌∷◌ (sextet (b % 16 * 4 + c / 64)) (String.◌∷◌ (sextet (c % 64)) (base64 bytes))))

unfoldable pub encode_to_string : String → String
unfolding base64 utf8
encode_to_string s = base64 (utf8 s)

-- `CloudInitUserData`
unfoldable pub cloud_init_user_data : (root_password : String) → (ssh_port : ℕ) → String
unfolding encode_to_string
cloud_init_user_data root_password ssh_port =
    before <> (encode_to_string root_password <> (between <> (decimal port <> after)))
  where
    port : ℕ
    port = if ssh_port == 0 then 22 else ssh_port

    before : String
    before =
        "#cloud-config\npackage_update: true\npackages:\n  - openssh-server\nssh_pwauth: true\ndisable_root: false\nmanage_resolv_conf: true\nresolv_conf:\n  nameservers: ['1.1.1.1', '8.8.8.8']\nruncmd:\n  - [ bash, -lc, \"PASS=$(echo '"

    between : String
    between =
        "' | base64 -d); echo root:$PASS | chpasswd; unset PASS\" ]\n  - [ bash, -lc, \"ssh-keygen -A\" ]\n  - [ bash, -lc, \"mkdir -p /etc/ssh/sshd_config.d; printf '%s\\\\n' 'Port "

    after : String
    after =
        "' 'PermitRootLogin yes' 'PasswordAuthentication yes' 'AddressFamily inet' 'ListenAddress 0.0.0.0' 'ListenAddress 127.0.0.1' 'MaxAuthTries 4' 'LoginGraceTime 30' 'PermitEmptyPasswords no' 'X11Forwarding no' > /etc/ssh/sshd_config.d/99-goincus.conf\" ]\n  - [ bash, -lc, \"systemctl disable --now ssh.socket 2>/dev/null || true; systemctl enable ssh 2>/dev/null || systemctl enable sshd 2>/dev/null || true; systemctl restart ssh 2>/dev/null || systemctl restart sshd 2>/dev/null || true\" ]\n"
