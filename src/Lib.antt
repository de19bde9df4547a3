-- ===== src/Lib.antt =====
-- opencie-pkcs11: the PKCS#11 module for the Italian electronic identity card (CIE), and the
-- utilities that it shares with the rest of the repository.
--
-- An application calls the C_ functions (pkcs11/src/pkcs11/pkcs11_functions.cpp). Each takes one
-- mutex, finds a session (session.cpp) by its handle and calls a method of it. A session belongs to
-- a slot (slot.cpp), which holds the objects of the card that is in the reader (p11_object.cpp), the
-- handles that sessions know them by, and the user who is logged in. An operation of a session is a
-- mechanism object (mechanism.cpp). What only the card can do is behind a table of functions, the
-- card template (card_template.h). Bytes are ByteArray views (shared/src/util/array.cpp), padded and
-- packed by shared/src/util/util.cpp and tlv.cpp.
--
-- Files and the code they model:
--   Base          lists, words and std::map; Base/Exceptions has the exception classes, and
--                 Base/Outcome the result of a computation that may loop.
--   Util/Array    ByteArray and ByteDynArray. A view is the list of its bytes.
--   Util/Padding  PutPaddingBT1 and RemovePaddingBT1; ISOPad, ISOPad16 and RemoveISOPad; RemoveSha1
--                 and RemoveSha256.
--   Util/Tlv      CTLV and CTLVCreate. Tlv/Write and Tlv/RoundTrip hold their proofs.
--   Util/Asn1     shared/src/crypto/asn_parser.cpp with the ASN.1 fields of util.cpp and array.cpp:
--                 Asn1/Tree is CASNTag and its Encode, Asn1/Header the head of a node, Asn1/Parse the
--                 parser. Asn1/Der describes the bytes of a tree on its own, Asn1/Placed the trees that
--                 the parser can build; Encoding, RoundTrip, Measure and Total hold the proofs.
--   Util/Hex      countHexData, setHexData, readHexData and dumpHexData of util.cpp.
--   P11/State     the state: World holds the objects behind shared_ptr<CP11Object>, the slots,
--                 g_mSlots, g_mSessions, dwSessionCnt and bP11Initialized. A pointer to an object is
--                 a number. State/Monad is how a method runs: it may throw, and what it changed
--                 before stays. The exception `crash` is a null pointer that the code went through.
--   P11/Object    CP11Object and its subclasses: attributes, read from the card when first asked.
--   P11/Slot      CSlot: handles, Init, Final, AddP11Object, DelP11Object, FindP11Object.
--   P11/Session   CSession: AddSession, DeleteSession, Login, Logout, and CSlot::CloseAllSessions
--                 and DeleteSlot. Session/Find, Digest, Keys, Sign, Verify, Objects and
--                 OperationState are the operations.
--   P11/Mechanism the digests and RSA mechanisms; Mechanism/Blocks the blocks that are compared.
--   P11/Buffer    the application's output buffer, a null pointer or memory.
--   P11/Functions pkcs11_guard and the C_ functions on sessions; Functions/Info has what the module
--                 tells of sessions and mechanisms, and C_Finalize.
--   Card          RetryOnCardLinkError (shared/src/util/retry.h), the classification of status
--                 words (shared/src/csp/cie_error.cpp), and the table of ATRs (shared/src/csp/atr.cpp).
--   Card/Io       the state of an object IAS, and how a method of it runs: it may throw or loop.
--   Card/Token    CToken::Transmit and APDU (shared/src/pcsc).
--   Card/Ias      SendAPDU and getResp of shared/src/csp/ias.cpp. Ias/Reading has the read loops,
--                 Ias/Messaging and Ias/Response secure messaging (SM, respSM), Ias/Secure SendAPDU_SM,
--                 and Ias/Commands the commands. Ias/Serving describes a card that serves a file;
--                 Whole, Plain, Chaining and Unwrapping hold the proofs.
--   Card/Sod      the security object: GetSODDigestAlg, VerificaSODPSS (Sod/Pss) and VerificaSOD
--                 (Sod/Rsa) of shared/src/csp/ias.cpp; Accepted and Unchecked hold the proofs.
--   Card/Enable   CardAuthenticateEx and its retries in pkcs11/src/csp/cie_enable.cpp.
--   Card/PinManager  cie_change_pin and cie_unblock_pin of pkcs11/src/csp/pin_manager.cpp;
--                 PinManager/Calls counts over chains of calls, Attempts, Served and Success
--                 hold the proofs.
--   Sdk/Object    CASN1Object (sign-sdk/src/asn1/asn1_object.cpp): writing, reading and the nesting of
--                 indefinite lengths. Object/Octets, Chunks and RoundTrip hold the proofs.
--   Sdk/Sequence  CASN1GenericSequence (asn1_generic_sequence.cpp). Sequence/Holding says when a
--                 sequence holds a list of objects; Offsets, Elements, Edits and Decoding hold the
--                 proofs that the operations are those on the list.
--   Sdk/Scalars   the octets of CASN1ObjectIdentifier and CASN1Integer.
--   Sdk/Certificate  CCertificate (certificate.cpp) and its parts. Certificate/Signature is
--                 verifySignature, Chain is CCertStore (sign-sdk/src/cert_store.cpp) with verify, Crl
--                 is CCrl (crl.cpp) with isValid, Ocsp says who may sign an OCSP response. Accepted,
--                 Climbing, Rounds and Crl/Revoked hold the proofs.
--   Each Tests module applies the theorems of its component at concrete values.
--
-- Parameters. `CardTemplate E` is TemplateFuncList: each function works on a state E of its own and
-- on nothing else, but for the objects that templateInitSession and templateReadObjectAttributes
-- hand back. `Cie E` is what the PIN manager calls: PC/SC, and the methods of IAS, which it takes as
-- they come. `Crypto` is OpenSSL: the hash functions and the bare RSA operation. Where a theorem
-- needs it, the length of a hash is a hypothesis. `SodCrypto` has the hashes, RSA and the reading of
-- a certificate that the security object is checked with, `CertificateCrypto` those that
-- certificates are checked with, and `name_text` is CName::getNameAsString. `Reader C` is the
-- transmit callback on the state C of whatever is behind the reader, and `Cipher` is triple DES and
-- its checksum. What a theorem needs of them stands among its hypotheses, as ISO/IEC 7816-4 has it.
--
-- Bounds and fuel. `unsigned long` has 64 bits and wraps around in the counters and in `k - 11`. The
-- loop of CTLV runs on fuel, the number of bytes, and never uses it up; so does CASNParser::Parse on
-- one more than that. makeOffset runs on the number of octets and moves on by two at least; parseBER
-- runs on the 64 levels that it allows itself. The loops that wait for the card (GET RESPONSE, READ
-- BINARY) run on fuel that the caller names, since a card can keep them going for ever; the theorems
-- say how much is enough for a card that ends. The loop over the issuers of a certificate runs on
-- fuel too, since nothing in the code bounds it; where it ends, one round more than the store has
-- certificates is enough. Every other loop is a recursion on the list or the number that it runs over.
--
-- Not modelled: the key exchange with the card (PACE, DHKeyExchange, DAPP), PC/SC and NFC, the card
-- templates behind the table, the slot list and its monitor thread, C_Initialize, the rest of the
-- signing SDK (CMS, PDF, XAdES, timestamps), logging and settings. Freed memory and the erasure of
-- secrets do not show in the model. What a read loop has appended when it throws is not told: its
-- callers give up the array then.
pub mod Base
pub mod Util
pub mod P11
pub mod Card
pub mod Sdk
